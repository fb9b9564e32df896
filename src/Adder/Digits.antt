-- ===== src/Adder/Digits.antt =====
-- That the digits of a number are read back, chapter_15/15.4.c
use apue_note.Common.{
  ℕ, zero, suc, ◌+◌, ◌-◌, ◌*◌, ◌/◌, ◌%◌, ◌≤◌, ◌<◌, ◌≡◌, refl, ap, ◌∙◌, Bool-cases, inl, inr, true,
  false, List, [], ◌∷◌, ◌++◌, ltb, arith,
}
use apue_note.Adder.{isdigit, starts_digit, scan_digits, digits}

abbrev pub Digits : List ℕ → Type 0
Digits [] = ◌≡◌ {A = ℕ} 0 0
Digits (c ∷ cs) = (isdigit c ≡ true) × Digits cs

-- What digits are worth behind others that are worth `n`
abbrev pub value : ℕ → List ℕ → ℕ
value n [] = n
value n (c ∷ cs) = value (n * 10 + (c - b'0')) cs

pub scan_digits-value :
    (cs rest : List ℕ) (n : ℕ)
    → Digits cs
    → starts_digit rest ≡ false
    → scan_digits n (cs ++ rest) ≡ (value n cs, rest)
unfolding scan_digits
scan_digits-value [] [] n ds e = refl
scan_digits-value [] (c ∷ rest) n ds e = rw e refl
scan_digits-value (c ∷ cs) rest n (d, ds) e =
    rw d (scan_digits-value cs rest (n * 10 + (c - b'0')) ds e)

Digits-append : (cs : List ℕ) (c : ℕ) → Digits cs → isdigit c ≡ true → Digits (cs ++ (c ∷ []))
Digits-append [] c ds d = (d, refl)
Digits-append (b ∷ cs) c (e, ds) d = (e, Digits-append cs c ds d)

value-append : (cs : List ℕ) (c n : ℕ) → value n (cs ++ (c ∷ [])) ≡ value n cs * 10 + (c - b'0')
value-append [] c n = refl
value-append (b ∷ cs) c n = value-append cs c (n * 10 + (b - b'0'))

isdigit_digit : (d : ℕ) → d < 10 → isdigit (b'0' + d) ≡ true
isdigit_digit d lt = ground arith

pub digits-Digits : (fuel n : ℕ) → Digits (digits fuel n)
unfolding digits
digits-Digits zero n = refl
digits-Digits (suc fuel) n = elim (Bool-cases (ltb n 10)) [
  | inl small ↦ rw small (isdigit_digit n (ground arith), refl)
  | inr big ↦ rw big (
      Digits-append (digits fuel (n / 10)) (b'0' + n % 10) (digits-Digits fuel (n / 10))
        (isdigit_digit (n % 10) (omega arith)))
]

pub value-digits : (fuel n : ℕ) → n < fuel → value 0 (digits fuel n) ≡ n
unfolding digits
value-digits zero n lt = absurd (omega arith)
value-digits (suc fuel) n lt = elim (Bool-cases (ltb n 10)) [
  | inl small ↦ rw small (omega arith)
  | inr big ↦ rw big (
      let big_n : 10 ≤ n = ground arith in
      value-append (digits fuel (n / 10)) (b'0' + n % 10) 0
      ∙ ap (λ v. v * 10 + (b'0' + n % 10 - b'0')) (value-digits fuel (n / 10) (omega arith))
      ∙ omega arith)
]

snoc-start : (xs : List ℕ) (x : ℕ) → (c : ℕ) × (cs : List ℕ) × (xs ++ (x ∷ []) ≡ c ∷ cs)
snoc-start [] x = (x, [], refl)
snoc-start (y ∷ xs) x = (y, xs ++ (x ∷ []), refl)

pub digits-start : (fuel n : ℕ) → (c : ℕ) × (cs : List ℕ) × (digits (suc fuel) n ≡ c ∷ cs)
unfolding digits
digits-start fuel n = elim (Bool-cases (ltb n 10)) [
  | inl small ↦ rw small (b'0' + n, [], refl)
  | inr big ↦ rw big (snoc-start (digits fuel (n / 10)) (b'0' + n % 10))
]
