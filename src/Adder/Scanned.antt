-- ===== src/Adder/Scanned.antt =====
-- That printf and sscanf of chapter_15/15.4.c are a round trip
use mathlib.Core.Path.{subst}
use apue_note.Common.{
  ℕ, suc, ◌-◌, ◌%◌, ◌^◌, ◌<◌, ◌≡◌, refl, ap, ◌∙◌, Bool, true, false, some, List, [], ◌∷◌, ◌++◌,
  ◌==◌, ltb, if◌then◌else◌, arith,
}
use apue_note.Adder.{
  ℤ, pos, negsuc, to_word, of_word, negated, add_int, isspace, skip_space, starts_digit, scan_sign,
  scan_value, scan_int, digits, print_int, answer,
}
use apue_note.Adder.Digits.{Digits, scan_digits-value, digits-Digits, value-digits, digits-start}

abbrev pub IsInt : ℤ → Type 0
IsInt (pos n) = n < 2 ^ 31
IsInt (negsuc n) = n < 2 ^ 31

of_word-to_word : (z : ℤ) → IsInt z → of_word (to_word z) ≡ z
of_word-to_word (pos n) h =
    let e : n % 2 ^ 32 ≡ n = omega arith in
    let lt : ltb n (2 ^ 31) ≡ true = ground arith in rw (e, lt) refl
of_word-to_word (negsuc n) h =
    let e : n % 2 ^ 32 ≡ n = omega arith in
    let lt : ltb (2 ^ 32 - 1 - n) (2 ^ 31) ≡ false = ground arith in
    let back : 2 ^ 32 - 1 - (2 ^ 32 - 1 - n) ≡ n = omega arith in rw (e, lt, back) refl

module _ (rest : List ℕ) (ends : starts_digit rest ≡ false) where
  starts : (n : ℕ) → starts_digit (digits (suc n) n ++ rest) ≡ true
  starts n =
      let (c, cs, e) = digits-start n n in
      let (d, ds) = subst Digits e (digits-Digits (suc n) n) in rw e d

  scan_value-digits :
      (negative : Bool) (n : ℕ)
      → scan_value negative (digits (suc n) n ++ rest)
        ≡ some (of_word (to_word (if negative then negated n else pos n)), rest)
  scan_value-digits negative n =
      rw
        (
          starts n,
          scan_digits-value (digits (suc n) n) rest 0 (digits-Digits (suc n) n) ends,
          value-digits (suc n) n (omega arith),
        )
        refl

  scan_sign-digits :
      (n : ℕ)
      → scan_sign (skip_space (digits (suc n) n ++ rest)) ≡ (false, digits (suc n) n ++ rest)
  unfolding skip_space
  scan_sign-digits n =
      let (c, cs, e) = digits-start n n in
      let (d, ds) = subst Digits e (digits-Digits (suc n) n) in
      let no_space : isspace c ≡ false = ground arith in
      let no_minus : (c == b'-') ≡ false = ground arith in
      let no_plus : (c == b'+') ≡ false = ground arith in
      rw e (rw (no_space, no_minus, no_plus) refl)

  minus :
      (n : ℕ)
      → scan_sign (skip_space (print_int (negsuc n) ++ rest))
        ≡ (true, digits (suc (suc n)) (suc n) ++ rest)
  unfolding skip_space
  minus n = refl

  scan_int-print_int : (z : ℤ) → IsInt z → scan_int (print_int z ++ rest) ≡ some (z, rest)
  scan_int-print_int (pos n) h =
      rw (scan_sign-digits n, scan_value-digits false n, of_word-to_word (pos n) h) refl
  scan_int-print_int (negsuc n) h =
      ap (λ (b, cs). scan_value b cs) (minus n)
      ∙ (rw (scan_value-digits true (suc n), of_word-to_word (negsuc n) h) refl)

-- White space before a number is skipped.
scan_int-space : (cs : List ℕ) → scan_int (32 ∷ cs) ≡ scan_int cs
unfolding skip_space
scan_int-space cs = refl

-- Two numbers printed with a space between them are answered by their sum: what printf prints, sscanf
-- reads back, for every two ints, and a newline ends the answer.
pub answer-sum :
    (a b : ℤ)
    → IsInt a
    → IsInt b
    → answer (print_int a ++ (32 ∷ (print_int b ++ (b'\n' ∷ []))))
      ≡ print_int (add_int a b) ++ (b'\n' ∷ [])
unfolding answer
answer-sum a b ia ib =
    rw
      (
        scan_int-print_int (32 ∷ (print_int b ++ (b'\n' ∷ []))) refl a ia,
        scan_int-space (print_int b ++ (b'\n' ∷ [])),
        scan_int-print_int (b'\n' ∷ []) refl b ib,
      )
      refl
