-- ===== src/Streams/Copy.antt =====
-- The copy loops of chapter_01/1.5.3.c and of chapter_14/14.5.3.c
use apue_note.Common.{
  ℕ, zero, suc, ◌+◌, ◌≡◌, ◌↔◌, refl, sym, ap, ◌∙◌, true, false, inl, inr, some, List, [], ◌∷◌, ◌++◌,
  map, arith, length, length-map, take, ◌==◌, Bool-cases,
}
use mathlib.Core.List.{append_assoc, append-nil, map-append}
use apue_note.Rot13.{translate}
use apue_note.Streams.{
  ReadReply, got, read_failed, WriteReply, whole, short, write_failed, write, is_count, copy_loop,
  rot13_loop,
}

-- The bytes that are read up to the end or a failure
abbrev pub input_of : List ReadReply → List ℕ
input_of [] = []
input_of (read_failed ∷ rs) = []
input_of (got [] ∷ rs) = []
input_of (got (b ∷ bs) ∷ rs) = (b ∷ bs) ++ input_of rs

-- The end comes without a failure.
abbrev pub ReadsWell : List ReadReply → Type 0
ReadsWell [] = Unit {0}
ReadsWell (read_failed ∷ rs) = ⊥
ReadsWell (got [] ∷ rs) = Unit {0}
ReadsWell (got (b ∷ bs) ∷ rs) = ReadsWell rs

-- A write of the whole count has written all.
write-count :
    (r : WriteReply) (bs out : List ℕ)
    → is_count (write r bs out).0 (length bs) ≡ true
    → (write r bs out).1 ≡ out ++ bs
write-count whole bs out h = refl
write-count (short n) bs out h = ap (λ xs. out ++ xs) (take-all n bs h)
  where
    take-all : (n : ℕ) (bs : List ℕ) → (length (take n bs) == length bs) ≡ true → take n bs ≡ bs
    take-all zero [] h = refl
    take-all zero (b ∷ bs) h = absurd (ground arith)
    take-all (suc n) [] h = refl
    take-all (suc n) (b ∷ bs) h = ap (λ xs. b ∷ xs) (take-all n bs (ground arith))
write-count write_failed bs out h = cc

module _ (w : ℕ → WriteReply) where
  copy_loop-on :
      (b : ℕ) (bs : List ℕ) (rs : List ReadReply) (k : ℕ) (out : List ℕ)
      → is_count (write (w k) (b ∷ bs) out).0 (length (b ∷ bs)) ≡ true
      → copy_loop w (got (b ∷ bs) ∷ rs) k out ≡ copy_loop w rs (k + 1) (out ++ b ∷ bs)
  unfolding copy_loop
  copy_loop-on b bs rs k out full =
      rw full (ap (copy_loop w rs (k + 1)) (write-count (w k) (b ∷ bs) out full))

  copy_loop-stops :
      (b : ℕ) (bs : List ℕ) (rs : List ReadReply) (k : ℕ) (out : List ℕ)
      → is_count (write (w k) (b ∷ bs) out).0 (length (b ∷ bs)) ≡ false
      → (copy_loop w (got (b ∷ bs) ∷ rs) k out).0 ≡ 1
  unfolding copy_loop
  copy_loop-stops b bs rs k out part = rw part refl

  -- Status 0 means that the whole input has been read without a failure and written.
  pub copy_loop-status :
      (rs : List ReadReply) (k : ℕ) (out : List ℕ)
      → (copy_loop w rs k out).0 ≡ 0
      → ReadsWell rs × ((copy_loop w rs k out).1 ≡ out ++ input_of rs)
  unfolding copy_loop
  copy_loop-status [] k out h = (tt, sym (append-nil out))
  copy_loop-status (read_failed ∷ rs) k out h = absurd (omega arith)
  copy_loop-status (got [] ∷ rs) k out h = (tt, sym (append-nil out))
  copy_loop-status (got (b ∷ bs) ∷ rs) k out h =
      elim (Bool-cases (is_count (write (w k) (b ∷ bs) out).0 (length (b ∷ bs)))) [
        | inl full ↦
            (let on = copy_loop-on b bs rs k out full in
              let ih = copy_loop-status rs (k + 1) (out ++ b ∷ bs) (sym (ap (λ r. r.0) on) ∙ h) in
              (ih.0, ap (λ r. r.1) on ∙ ih.1 ∙ append_assoc out (b ∷ bs) (input_of rs)))
        | inr part ↦ absurd (omega (arith, copy_loop-stops b bs rs k out part))
      ]

  -- When every write takes all, the status is 0 exactly if no read fails, and what has been read is
  -- written in either case.
  pub copy_loop-whole :
      (rs : List ReadReply) (k : ℕ) (out : List ℕ)
      → ((i : ℕ) → w i ≡ whole)
      → (((copy_loop w rs k out).0 ≡ 0) ↔ ReadsWell rs)
        × ((copy_loop w rs k out).1 ≡ out ++ input_of rs)
  unfolding copy_loop
  copy_loop-whole [] k out all = ((λ _. tt, λ _. refl), sym (append-nil out))
  copy_loop-whole (read_failed ∷ rs) k out all =
      ((λ h. omega arith, λ h. absurd h), sym (append-nil out))
  copy_loop-whole (got [] ∷ rs) k out all = ((λ _. tt, λ _. refl), sym (append-nil out))
  copy_loop-whole (got (b ∷ bs) ∷ rs) k out all =
      let full : is_count (write (w k) (b ∷ bs) out).0 (length (b ∷ bs)) ≡ true =
        rw (all k) (ground arith) in
      let on = copy_loop-on b bs rs k out full in
      let ih = copy_loop-whole rs (k + 1) (out ++ b ∷ bs) all in
      rw on (ih.0, ih.1 ∙ append_assoc out (b ∷ bs) (input_of rs))

  rot13_loop-on :
      (b : ℕ) (bs : List ℕ) (rs : List ReadReply) (k : ℕ) (out : List ℕ)
      → w k ≡ whole
      → rot13_loop w (got (b ∷ bs) ∷ rs) k out
        ≡ rot13_loop w rs (k + 1) (out ++ map translate (b ∷ bs))
  unfolding rot13_loop
  rot13_loop-on b bs rs k out all =
      let full : is_count (some (length (map translate (b ∷ bs)))) (length (b ∷ bs)) ≡ true =
        rw (length-map bs translate) (ground arith) in
      rw (all, full) refl

  -- When every write takes all, the program ends with status 0 and the translation of what has been
  -- read, also where a read has failed.
  pub rot13_loop-whole :
      (rs : List ReadReply) (k : ℕ) (out : List ℕ)
      → ((i : ℕ) → w i ≡ whole)
      → rot13_loop w rs k out ≡ (0, out ++ map translate (input_of rs))
  unfolding rot13_loop
  rot13_loop-whole [] k out all = rw append-nil refl
  rot13_loop-whole (read_failed ∷ rs) k out all = rw append-nil refl
  rot13_loop-whole (got [] ∷ rs) k out all = rw append-nil refl
  rot13_loop-whole (got (b ∷ bs) ∷ rs) k out all =
      rot13_loop-on b bs rs k out (all k)
      ∙ rot13_loop-whole rs (k + 1) (out ++ map translate (b ∷ bs)) all
      ∙ ap (λ o. (0, o))
          (append_assoc out (map translate (b ∷ bs)) (map translate (input_of rs))
            ∙ ap (λ o. out ++ o) (sym (map-append translate (b ∷ bs) (input_of rs))))
