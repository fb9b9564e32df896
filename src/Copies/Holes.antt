-- ===== src/Copies/Holes.antt =====
-- How the copy of chapter_04/p6.c ends
use apue_note.Common.{
  ℕ, zero, suc, ◌+◌, ◌-◌, ◌<◌, ◌≤◌, ◌≡◌, ◌≢◌, refl, ap, inl, inr, Bool-cases, Bool, true, false,
  ◌&&◌, not, Option, none, some, List, [], ◌∷◌, length, drop, ◌==◌, arith,
}
use apue_note.Common.Process.{Result, ok, exited, Process, ◌>>=◌, and_then}
use apue_note.Copies.{
  Got, chunk, end, File, Writes, Place, one_written, rest_written, scan_byte, scan, write_rest,
  copy_holes, main_holes,
}

-- A write of some bytes fails or writes some of them.
abbrev pub Honest : Writes → Type 0
Honest writes = (o n : ℕ) → 0 < n → writes o n ≢ some 0

-- An end with status 1, or a place before the end of the chunk
abbrev Before : {S : Type 0} → ℕ → Result Place × S → Type 0
Before n (ok p, w) = p.1 < n
Before n (exited k, w) = k ≡ 1

abbrev Fails : {A S : Type 0} → Result A × S → Type 0
Fails (ok a, w) = ⊥
Fails (exited k, w) = k ≡ 1

one_written-Before :
    (first n : ℕ) (p : Place) (r : Option ℕ) (w : File)
    → p.1 < n
    → Before n (one_written first p r w)
one_written-Before first n p none w h = refl
one_written-Before first n p (some k) w h = h

rest_written-Fails :
    (bs : List ℕ) (r : Option ℕ) (w : File) → r ≢ some 0 → Fails (rest_written bs r w)
rest_written-Fails bs none w h = refl
rest_written-Fails bs (some zero) w h = absurd (h refl)
rest_written-Fails bs (some (suc n)) w h = elim (Bool-cases (suc n == 0)) [
  | inl t ↦ absurd (ground arith)
  | inr f ↦ rw f refl
]

Before-and_then :
    {S B : Type 0} (n : ℕ) (x : Result Place × S) (f : Place → Process S B)
    (P : Result B × S → Type 0)
    → Before n x
    → ((k : ℕ) (w : S) → k ≡ 1 → P (exited k, w))
    → ((p : Place) (w : S) → p.1 < n → P (f p w))
    → P (and_then f x.0 x.1)
Before-and_then n (ok p, w) f P b e g = g p w b
Before-and_then n (exited k, w) f P b e g = e k w b

Fails-status : {A S : Type 0} (x : Result A × S) → Fails x → x.0 ≡ exited 1
Fails-status (ok a, w) h = absurd h
Fails-status (exited k, w) h = ap exited h

Fails-and_then :
    {S A B : Type 0} (x : Result A × S) (f : A → Process S B) → Fails x → Fails (and_then f x.0 x.1)
Fails-and_then (ok a, w) f h = absurd h
Fails-and_then (exited k, w) f h = h

module _ (lseeks : ℕ → Bool) (writes : Writes) where
  scan_byte-Before :
      (all_cnt i b first n : ℕ) (p : Place) (w : File)
      → p.1 < n
      → i < n
      → Before n (scan_byte lseeks writes all_cnt i b first p w)
  unfolding scan_byte
  scan_byte-Before all_cnt i b first n p w h l = elim (Bool-cases (not p.0 && not (b == 0))) [
    | inl t ↦ elim (Bool-cases (lseeks (all_cnt + i))) [
      | inl g ↦ rw (t, g) l
      | inr g ↦ rw (t, g) refl
    ]
    | inr t ↦ elim (Bool-cases (p.0 && (b == 0))) [
      | inl g ↦ rw (t, g) (one_written-Before first n p (writes w.offset 1) w h)
      | inr g ↦ rw (t, g) h
    ]
  ]

  scan-Before :
      (all_cnt i first n : ℕ) (bs : List ℕ) (p : Place) (w : File)
      → p.1 < n
      → i + length bs ≤ n
      → Before n (scan lseeks writes all_cnt i first bs p w)
  unfolding scan
  scan-Before all_cnt i first n [] p w h l = h
  scan-Before all_cnt i first n (b ∷ bs) p w h l =
      Before-and_then n (scan_byte lseeks writes all_cnt i b first p w)
        (scan lseeks writes all_cnt (i + 1) first bs) (Before n)
        (scan_byte-Before all_cnt i b first n p w h (omega arith)) (λ k v e. e)
        (λ q v g. scan-Before all_cnt (i + 1) first n bs q v g (omega arith))

  write_rest-Fails :
      (bs : List ℕ) (p : Place) (w : File)
      → Honest writes
      → p.1 < length bs
      → Fails (write_rest writes bs p w)
  unfolding write_rest
  write_rest-Fails bs p w h l = elim (Bool-cases (p.1 == length bs)) [
    | inl t ↦ absurd (ground arith)
    | inr f ↦ rw f (
        rest_written-Fails (drop p.1 bs) (writes w.offset (length bs - p.1)) w
          (h w.offset (length bs - p.1) (omega arith)))
  ]

  copy_holes-Fails :
      (b : ℕ) (bs : List ℕ) (gs : List Got) (all_cnt : ℕ) (w : File)
      → Honest writes
      → Fails (copy_holes lseeks writes (chunk b bs ∷ gs) all_cnt w)
  unfolding copy_holes
  copy_holes-Fails b bs gs all_cnt w h =
      Before-and_then (length (b ∷ bs)) (scan lseeks writes all_cnt 0 b (b ∷ bs) (false, 0) w)
        (λ p. write_rest writes (b ∷ bs) p >>= λ u.
          copy_holes lseeks writes gs (all_cnt + length (b ∷ bs)))
        Fails
        (scan-Before all_cnt 0 b (length (b ∷ bs)) (b ∷ bs) (false, 0) w (omega arith)
          (omega arith))
        (λ k v e. e)
        (λ p v l.
          Fails-and_then (write_rest writes (b ∷ bs) p v) _ (write_rest-Fails (b ∷ bs) p v h l))

  -- With three arguments, both files open and a write of some bytes that never reports 0 of them, the copy
  -- ends with status 1 whatever the file holds, unless it is empty, and then with status 0: the value of
  -- a good write is taken for a failure.
  pub main_holes-status :
      (w : File)
      → Honest writes
      → ((b : ℕ) (bs : List ℕ) (gs : List Got)
          → (main_holes 3 true true lseeks writes (chunk b bs ∷ gs) w).0 ≡ exited 1)
        × ((gs : List Got) → main_holes 3 true true lseeks writes (end ∷ gs) w ≡ (ok 0, w))
  unfolding main_holes copy_holes
  main_holes-status w h = (
    λ b bs gs.
        Fails-status (copy_holes lseeks writes (chunk b bs ∷ gs) 0 w)
          (copy_holes-Fails b bs gs 0 w h),
    λ gs. refl,
  )
