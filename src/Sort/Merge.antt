-- ===== src/Sort/Merge.antt =====
-- `merge` of chapter_11/11.6.8.c: from sorted parts comes a sorted array of the same numbers.
use apue_note.Common.{
  ℕ, zero, suc, ◌+◌, ◌-◌, ◌*◌, ◌<◌, ◌≤◌, ◌≡◌, inl, inr, refl, List, [], ◌∷◌, ◌==◌, if◌then◌else◌,
  Bool-cases, arith, update, sum_to, sum_to-change, sum_to-pos, sum_to-le, sym, ◌∙◌,
}
use native.Mathlib.Nat.{zero-add, zero-mul}
use apue_note.Sort.{long_max, pick, merge_loop, merge}
use apue_note.Sort.Pick.{Open, pick-Picked}

-- How often `x` stands in a list.
unfoldable pub count : ℕ → List ℕ → ℕ
count x [] = 0
count x (y ∷ ys) = (if y == x then 1 else 0) + count x ys

-- The numbers of a list do not fall, from `lo` on.
abbrev pub IsSorted : ℕ → List ℕ → Type 0
IsSorted lo [] = Unit {0}
IsSorted lo (x ∷ xs) = (lo ≤ x) × IsSorted x xs

-- How often `x` stands among the `k` numbers from `a` on.
unfoldable pub count_from : (ℕ → ℕ) → ℕ → ℕ → ℕ → ℕ
count_from nums x a zero = 0
count_from nums x a (suc k) = (if nums a == x then 1 else 0) + count_from nums x (a + 1) k

module _ (nums : ℕ → ℕ) (x : ℕ) where
  count_from-le : (a k : ℕ) → count_from nums x a k ≤ k
  unfolding count_from
  count_from-le a zero = omega arith
  count_from-le a (suc k) = ground (arith, count_from-le (a + 1) k)

  count_from-add :
      (a j k b : ℕ)
      → a + j ≡ b
      → count_from nums x a (j + k) ≡ count_from nums x a j + count_from nums x b k
  unfolding count_from
  count_from-add a zero k b e = let e' : a ≡ b = omega arith in rw (zero-add, e') (sym (zero-add _))
  count_from-add a (suc j) k b e =
      let s : suc j + k ≡ suc (j + k) = omega arith in
      rw s (omega (arith, count_from-add (a + 1) j k b (omega arith)))

  -- The parts, one after the other, are the array.
  pub count-parts :
      (tnum n : ℕ)
      → sum_to n (λ i. count_from nums x (i * tnum) ((i + 1) * tnum - i * tnum))
        ≡ count_from nums x 0 (n * tnum)
  unfolding sum_to count_from
  count-parts tnum zero = rw zero-mul refl
  count-parts tnum (suc n) =
      let part : (n + 1) * tnum - n * tnum ≡ tnum = omega arith in
      let all : suc n * tnum ≡ n * tnum + tnum = omega arith in
      rw (part, all, count-parts tnum n)
        (sym (count_from-add 0 (n * tnum) tnum (n * tnum) (omega arith)))

parts_total : (tnum n : ℕ) → sum_to n (λ i. (i + 1) * tnum - i * tnum) ≡ n * tnum
unfolding sum_to
parts_total tnum zero = omega arith
parts_total tnum (suc n) = omega (arith, parts_total tnum n)

module _ (nthr tnum : ℕ) (nums : ℕ → ℕ) where
  -- The end of a part, and the numbers that it has left.
  abbrev end : ℕ → ℕ
  end i = (i + 1) * tnum

  abbrev left_of : (ℕ → ℕ) → ℕ → ℕ
  left_of idx i = end i - idx i

  abbrev count_left : (ℕ → ℕ) → ℕ → ℕ → ℕ
  count_left idx x i = count_from nums x (idx i) (left_of idx i)

  -- Each part is sorted.
  abbrev pub PartsSorted : Type 0
  PartsSorted = (i a b : ℕ) → i < nthr → i * tnum ≤ a → a ≤ b → b < (i + 1) * tnum → nums a ≤ nums b

  -- No number is the greatest long.
  abbrev pub BelowMax : Type 0
  BelowMax = (i a : ℕ) → i < nthr → i * tnum ≤ a → a < (i + 1) * tnum → nums a < long_max

  -- An open part has its first number, and then the others.
  count_left-step :
      (x m : ℕ) (idx : ℕ → ℕ)
      → Open tnum nums idx m
      → count_left idx x m
        ≡ (if nums (idx m) == x then 1 else 0) + count_left (update idx m (idx m + 1)) x m
  unfolding count_from
  count_left-step x m idx o =
      let some_left : left_of idx m ≡ suc (end m - (idx m + 1)) = omega arith in
      let here : update idx m (idx m + 1) m ≡ idx m + 1 = ground arith in rw (some_left, here) refl

  record Inv (lo left : ℕ) (idx : ℕ → ℕ) : Type 0 where
    within : (i : ℕ) → i < nthr → (i * tnum ≤ idx i) × (idx i ≤ end i)
    total : sum_to nthr (left_of idx) ≡ left
    bound : (i : ℕ) → i < nthr → Open tnum nums idx i → lo ≤ nums (idx i)

  module _ (sorted : PartsSorted) (below : BelowMax) where
    -- While numbers are left, `pick` finds an open part with a least first number.
    Inv-pick :
        (lo left : ℕ) (idx : ℕ → ℕ) (minidx : ℕ)
        → Inv lo (suc left) idx
        → let m = (pick tnum nums nthr 0 idx long_max minidx).1 in
          (m < nthr)
          × Open tnum nums idx m
          × ((j : ℕ) → j < nthr → Open tnum nums idx j → nums (idx m) ≤ nums (idx j))
    Inv-pick lo left idx minidx inv =
        let (i, lt, some_left) = sum_to-pos nthr (left_of idx) (omega (arith, inv.total)) in
        let p = pick-Picked tnum nums idx nthr 0 nthr long_max minidx (omega arith) in
        let small = below i (idx i) lt (inv.within i lt).0 (omega arith) in
        let found = p.least i (omega arith) lt (omega arith) in
        elim p.kept [
          | inl k ↦ absurd (omega (arith, k.0, found, small))
          | inr k ↦ (k.0, k.1, λ j lj o. omega (arith, k.2, p.least j (omega arith) lj o))
        ]

    -- The part `m` gives its first number away.
    Inv-step :
        (lo left m : ℕ) (idx : ℕ → ℕ)
        → Inv lo (suc left) idx
        → m < nthr
        → Open tnum nums idx m
        → ((j : ℕ) → j < nthr → Open tnum nums idx j → nums (idx m) ≤ nums (idx j))
        → Inv (nums (idx m)) left (update idx m (idx m + 1))
    Inv-step lo left m idx inv lt open_m least =
        let idx' = update idx m (idx m + 1) in
        let here : idx' m ≡ idx m + 1 = ground arith in
        record {
          within = λ i li. ground (arith, inv.within i li);
          total = omega (
            arith,
            inv.total,
            here,
            sum_to-change nthr m (left_of idx) (left_of idx') lt (λ i ne. ground arith),
          );
          bound = λ i li o. elim (Bool-cases (i == m)) [
            | inl same ↦
                (let e : i ≡ m = ground arith in
                  let at : idx' i ≡ idx m + 1 = ground arith in
                  let o' : idx m + 1 < end m = ground arith in
                  rw at (sorted m (idx m) (idx m + 1) lt (inv.within m lt).0 (omega arith) o'))
            | inr other ↦
                (let at : idx' i ≡ idx i = ground arith in rw at (least i li (rw at at o)))
          ];
        }

    -- The output is sorted.
    merge_loop-IsSorted :
        (lo left minidx : ℕ) (idx : ℕ → ℕ)
        → Inv lo left idx
        → IsSorted lo (merge_loop tnum nums nthr left idx minidx)
    unfolding merge_loop
    merge_loop-IsSorted lo zero minidx idx inv = tt
    merge_loop-IsSorted lo (suc left) minidx idx inv =
        let m = (pick tnum nums nthr 0 idx long_max minidx).1 in
        let (lt, open_m, least) = Inv-pick lo left idx minidx inv in
        (
          inv.bound m lt open_m,
          merge_loop-IsSorted (nums (idx m)) left m (update idx m (idx m + 1))
              (Inv-step lo left m idx inv lt open_m least),
        )

    -- What is output and what is left make up the same numbers.
    merge_loop-count :
        (lo left minidx x : ℕ) (idx : ℕ → ℕ)
        → Inv lo left idx
        → count x (merge_loop tnum nums nthr left idx minidx) ≡ sum_to nthr (count_left idx x)
    unfolding merge_loop count
    merge_loop-count lo zero minidx x idx inv =
        let none_left =
          sum_to-le nthr (count_left idx x) (left_of idx)
            (λ i _. count_from-le nums x (idx i) (left_of idx i)) in
        omega (arith, none_left, inv.total)
    merge_loop-count lo (suc left) minidx x idx inv =
        let m = (pick tnum nums nthr 0 idx long_max minidx).1 in
        let (lt, open_m, least) = Inv-pick lo left idx minidx inv in
        let idx' = update idx m (idx m + 1) in
        let ih =
          merge_loop-count (nums (idx m)) left m x idx'
            (Inv-step lo left m idx inv lt open_m least) in
        let moved =
          sum_to-change nthr m (count_left idx x) (count_left idx' x) lt (λ i ne. ground arith) in
        let first = count_left-step x m idx open_m in omega (arith, ih, moved, first)

    start_Inv : Inv 0 (nthr * tnum) (λ i. i * tnum)
    start_Inv = record {
      within = λ i lt. (omega arith, omega arith);
      total = parts_total tnum nthr;
      bound = λ i lt o. omega arith;
    }

    -- The output does not fall, and holds every number as often as the array.
    pub merge-sorts :
        (junk : ℕ)
        → IsSorted 0 (merge tnum nums nthr junk)
          × ((x : ℕ) → count x (merge tnum nums nthr junk) ≡ count_from nums x 0 (nthr * tnum))
    unfolding merge
    merge-sorts junk = (
      merge_loop-IsSorted 0 (nthr * tnum) junk (λ i. i * tnum) start_Inv,
      λ x.
          merge_loop-count 0 (nthr * tnum) junk x (λ i. i * tnum) start_Inv
          ∙ count-parts nums x tnum nthr,
    )
