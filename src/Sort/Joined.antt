-- ===== src/Sort/Joined.antt =====
-- The barrier of chapter_11/11.6.8.c: when `main` merges, every part has been sorted.
use apue_note.Common.{
  ℕ, zero, suc, ◌+◌, ◌-◌, ◌*◌, ◌<◌, ◌≤◌, ◌≡◌, ◌≢◌, ◌⊎◌, inl, inr, refl, sym, ◌∙◌, List, ◌==◌, arith,
  update, sum_to, sum_to-change, sum_to-full, sum_to-of_eq, Bool-cases,
}
use mathlib.Core.Path.{subst}
use native.Mathlib.Decide.{dec_lt}
use apue_note.Sort.Order.{complong_total}
use apue_note.Sort.Merge.{
  count, count_from, IsSorted, PartsSorted, BelowMax, merge-sorts, count-parts,
}
use apue_note.Sort.Barrier.{
  Heapsort, Stage, absent, sorting, waiting, passed, MainStage, creating, waits, released, merged,
  System, start, Step, create, sort_part, main_waits, release, merge_parts, Reach, begin, next,
}

abbrev waits_of : Stage → ℕ
waits_of waiting = 1
waits_of _ = 0

abbrev main_of : MainStage → ℕ
main_of waits = 1
main_of _ = 0

count_from-of_eq :
    (f g : ℕ → ℕ) (x a k : ℕ)
    → ((i : ℕ) → a ≤ i → i < a + k → f i ≡ g i)
    → count_from f x a k ≡ count_from g x a k
unfolding count_from
count_from-of_eq f g x a zero same = refl
count_from-of_eq f g x a (suc k) same = ground (
  arith,
  same a (omega arith) (omega arith),
  count_from-of_eq f g x (a + 1) k (λ i le lt. same i (omega arith) (omega arith)),
)

-- A number of a part stands in it at least once.
count_from-pos : (f : ℕ → ℕ) (a k i : ℕ) → a ≤ i → i < a + k → 0 < count_from f (f i) a k
unfolding count_from
count_from-pos f a zero i le lt = absurd (omega arith)
count_from-pos f a (suc k) i le lt = elim (dec_lt a i) [
  | yes on ↦ omega (arith, count_from-pos f (a + 1) k i (omega arith) (omega arith))
  | no here ↦ let e : a ≡ i = omega arith in rw e (ground arith)
]

find_count :
    (f : ℕ → ℕ) (x a k : ℕ) → 0 < count_from f x a k → (i : ℕ) × (a ≤ i) × (i < a + k) × (f i ≡ x)
unfolding count_from
find_count f x a zero h = absurd (omega arith)
find_count f x a (suc k) h = elim (Bool-cases (f a == x)) [
  | inl here ↦ (a, omega arith, omega arith, ground arith)
  | inr on ↦
      let (i, le, lt, e) = find_count f x (a + 1) k (ground arith) in
      (i, omega arith, omega arith, e)
]

apart :
    (tnum i j a : ℕ)
    → i ≢ j
    → j * tnum ≤ a
    → a < (j + 1) * tnum
    → (a < i * tnum) ⊎ (i * tnum + tnum ≤ a)
apart tnum i j a ne le lt = elim (dec_lt i j) [
  | yes below ↦ inr (grind arith)
  | no above ↦ inl (let lt' : j < i = omega arith in grind arith)
]

module _ (nthr tnum : ℕ) (h : Heapsort tnum) (nums : ℕ → ℕ) where
  abbrev PartSorted : (ℕ → ℕ) → ℕ → Type 0
  PartSorted f i = (a b : ℕ) → i * tnum ≤ a → a ≤ b → b < (i + 1) * tnum → f a ≤ f b

  record Counting (s : System) : Type 0 where
    arrived : s.arrived ≡ sum_to nthr (λ i. waits_of (s.stage i)) + main_of s.main
    fresh : (i : ℕ) → s.created ≤ i → s.stage i ≡ absent

  abbrev Phase : System → MainStage → Type 0
  Phase s creating = Counting s
  Phase s waits = Counting s
  Phase s released = PartsSorted nthr tnum s.nums × ((i : ℕ) → s.stage i ≡ passed)
  Phase s (merged out) =
      (IsSorted 0 out × ((x : ℕ) → count x out ≡ count_from nums x 0 (nthr * tnum)))
      × ((i : ℕ) → s.stage i ≡ passed)

  record Inv (s : System) : Type 0 where
    inside : (i : ℕ) → s.stage i ≡ sorting → i < nthr
    ready : (i : ℕ) → s.stage i ≡ waiting → PartSorted s.nums i
    same :
        (i x : ℕ)
        → i < nthr
        → count_from s.nums x (i * tnum) tnum ≡ count_from nums x (i * tnum) tnum
    phase : Phase s s.main

  sorted_part : (f : ℕ → ℕ) (i : ℕ) → PartSorted (h.sort (i * tnum) f) i
  sorted_part f i a b le le' lt =
      let o = h.ordered (i * tnum) f a b le le' (omega arith) in
      (complong_total (h.sort (i * tnum) f a) (h.sort (i * tnum) f b)).1.0 o

  other_part :
      (f : ℕ → ℕ) (i j a : ℕ)
      → i ≢ j
      → j * tnum ≤ a
      → a < (j + 1) * tnum
      → h.sort (i * tnum) f a ≡ f a
  other_part f i j a ne le lt = h.outside (i * tnum) f a (apart tnum i j a ne le lt)

  sort_part-ready :
      (s : System) (i : ℕ)
      → Inv s
      → (j : ℕ) → update s.stage i waiting j ≡ waiting
      → PartSorted (h.sort (i * tnum) s.nums) j
  sort_part-ready s i inv j e = elim (Bool-cases (j == i)) [
    | inl same ↦ let ji : j ≡ i = ground arith in rw ji (sorted_part s.nums i)
    | inr other ↦
        (let ne : i ≢ j = ground arith in
          let old : s.stage j ≡ waiting = ground arith in
          λ a b le le' lt.
            rw
              (
                other_part s.nums i j a ne le (omega arith),
                other_part s.nums i j b ne (omega arith) lt,
              )
              (inv.ready j old a b le le' lt))
  ]

  sort_part-same :
      (f : ℕ → ℕ) (i j x : ℕ)
      → count_from (h.sort (i * tnum) f) x (j * tnum) tnum ≡ count_from f x (j * tnum) tnum
  sort_part-same f i j x = elim (Bool-cases (j == i)) [
    | inl same ↦ let ji : j ≡ i = ground arith in rw ji (h.same_numbers (i * tnum) f x)
    | inr other ↦
        count_from-of_eq (h.sort (i * tnum) f) f x (j * tnum) tnum
          (λ a le lt. other_part f i j a (ground arith) le (omega arith))
  ]

  -- Sorting a part keeps the phase.
  sort_part-Phase :
      (s : System) (i : ℕ) (m : MainStage)
      → s.main ≡ m
      → s.stage i ≡ sorting
      → i < nthr
      → Phase s m
      → Phase
          (record s {
            nums = h.sort (i * tnum) s.nums;
            arrived = s.arrived + 1;
            stage = update s.stage i waiting;
          })
          m
  sort_part-Phase s i creating e at lt ph =
      let moved =
        sum_to-change nthr i (λ j. waits_of (s.stage j))
          (λ j. waits_of (update s.stage i waiting j)) lt (λ j ne. ground arith) in
      record {
        arrived = ground (arith, moved, ph.arrived);
        fresh = λ j le. ground (arith, ph.fresh j, ph.fresh i);
      }
  sort_part-Phase s i waits e at lt ph =
      let moved =
        sum_to-change nthr i (λ j. waits_of (s.stage j))
          (λ j. waits_of (update s.stage i waiting j)) lt (λ j ne. ground arith) in
      record {
        arrived = ground (arith, moved, ph.arrived);
        fresh = λ j le. ground (arith, ph.fresh j, ph.fresh i);
      }
  sort_part-Phase s i released e at lt ph = cc (ph.1 i)
  sort_part-Phase s i (merged out) e at lt ph = cc (ph.1 i)

  create-Counting :
      (s : System)
      → s.created < nthr
      → Counting s
      → Counting (record s { created = s.created + 1; stage = update s.stage s.created sorting })
  create-Counting s lt c =
      let moved =
        sum_to-change nthr s.created (λ j. waits_of (s.stage j))
          (λ j. waits_of (update s.stage s.created sorting j)) lt (λ j ne. ground arith) in
      record {
        arrived = ground (arith, moved, c.arrived, c.fresh s.created);
        fresh = λ j le. ground (arith, c.fresh j);
      }

  -- When all have arrived, all parts are sorted.
  full-PartsSorted :
      (s : System)
      → Inv s
      → s.main ≡ waits
      → s.arrived ≡ nthr + 1
      → Counting s
      → PartsSorted nthr tnum s.nums
  full-PartsSorted s inv e full c i a b lt le le' lt' =
      let all =
        sum_to-full nthr (λ j. waits_of (s.stage j)) (λ j. ground arith) (ground (arith, c.arrived))
          i lt in
      inv.ready i (ground arith) a b le le' lt'

  sorted_below :
      (f : ℕ → ℕ)
      → ((i x : ℕ) → i < nthr → count_from f x (i * tnum) tnum ≡ count_from nums x (i * tnum) tnum)
      → BelowMax nthr tnum nums
      → BelowMax nthr tnum f
  sorted_below f same below i a lt le le' =
      let here = count_from-pos f (i * tnum) tnum a le (omega arith) in
      let (j, jl, jr, e) =
        find_count nums (f a) (i * tnum) tnum (omega (arith, same i (f a) lt, here)) in
      rw (← e) (below i j lt jl (omega arith))

  count-of_parts :
      (f : ℕ → ℕ) (x : ℕ)
      → ((i x : ℕ) → i < nthr → count_from f x (i * tnum) tnum ≡ count_from nums x (i * tnum) tnum)
      → count_from f x 0 (nthr * tnum) ≡ count_from nums x 0 (nthr * tnum)
  count-of_parts f x same =
      sym (count-parts f x tnum nthr)
      ∙ sum_to-of_eq nthr _ _ (λ i lt.
        let size : (i + 1) * tnum - i * tnum ≡ tnum = omega arith in rw size (same i x lt))
      ∙ count-parts nums x tnum nthr

  Step-Inv : {s t : System} → BelowMax nthr tnum nums → Step nthr tnum h s t → Inv s → Inv t
  Step-Inv {s} below (create e lt) inv =
      let c : Counting s = subst (Phase s) e inv.phase in
      record {
        inside = λ i at. ground (arith, inv.inside i);
        ready = λ i at. inv.ready i (ground arith);
        same = inv.same;
        phase =
            subst
              (Phase
                (record s { created = s.created + 1; stage = update s.stage s.created sorting }))
              (sym e) (create-Counting s lt c);
      }
  Step-Inv {s} below (sort_part i at) inv = record {
    inside = λ j at'. ground (arith, inv.inside j);
    ready = sort_part-ready s i inv;
    same = λ j x lt. sort_part-same s.nums i j x ∙ inv.same j x lt;
    phase = sort_part-Phase s i s.main refl at (inv.inside i at) inv.phase;
  }
  Step-Inv {s} below (main_waits e all) inv =
      let c : Counting s = subst (Phase s) e inv.phase in
      record {
        inside = inv.inside;
        ready = inv.ready;
        same = inv.same;
        phase = record { arrived = ground (arith, c.arrived); fresh = c.fresh };
      }
  Step-Inv {s} below (release full e) inv =
      let c : Counting s = subst (Phase s) e inv.phase in
      record {
        inside = λ i at. cc;
        ready = λ i at. cc;
        same = inv.same;
        phase = (full-PartsSorted s inv e full c, λ i. refl);
      }
  Step-Inv {s} below (merge_parts junk e) inv =
      let ph : PartsSorted nthr tnum s.nums × ((i : ℕ) → s.stage i ≡ passed) =
        subst (Phase s) e inv.phase in
      let m = merge-sorts nthr tnum s.nums ph.0 (sorted_below s.nums inv.same below) junk in
      record {
        inside = inv.inside;
        ready = inv.ready;
        same = inv.same;
        phase = ((m.0, λ x. m.1 x ∙ count-of_parts s.nums x inv.same), ph.1);
      }

  sum_to-nothing : (n : ℕ) → sum_to n (λ _. 0) + 0 ≡ 0
  unfolding sum_to
  sum_to-nothing zero = refl
  sum_to-nothing (suc n) = omega (arith, sum_to-nothing n)

  start-Inv : Inv (start nums)
  unfolding sum_to
  start-Inv = record {
    inside = λ i at. cc;
    ready = λ i at. cc;
    same = λ i x lt. refl;
    phase = record { arrived = sym (sum_to-nothing nthr); fresh = λ i le. refl };
  }

  Reach-Inv : {s : System} → BelowMax nthr tnum nums → Reach nthr tnum h nums s → Inv s
  Reach-Inv below begin = start-Inv
  Reach-Inv below (next r st) = Step-Inv below st (Reach-Inv below r)

  -- In every order of the threads' steps, what `main` has merged is the array, sorted.
  pub merged-IsSorted :
      {s : System} {out : List ℕ}
      → BelowMax nthr tnum nums
      → Reach nthr tnum h nums s
      → s.main ≡ merged out
      → IsSorted 0 out × ((x : ℕ) → count x out ≡ count_from nums x 0 (nthr * tnum))
  merged-IsSorted {s} {out} below r e =
      let ph : (IsSorted 0 out × ((x : ℕ) → count x out ≡ count_from nums x 0 (nthr * tnum)))
          × ((i : ℕ) → s.stage i ≡ passed) =
        subst (Phase s) e (Reach-Inv below r).phase in
      ph.0
