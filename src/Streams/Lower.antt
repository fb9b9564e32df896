-- ===== src/Streams/Lower.antt =====
-- The filter of chapter_15/15.3.1.c
use apue_note.Common.{
  ℕ, ◌+◌, ◌≡◌, refl, sym, ap, ◌∙◌, Bool, true, false, List, [], ◌∷◌, ◌++◌, map, arith, ◌==◌,
  if◌then◌else◌, Bool-cases, inl, inr,
}
use mathlib.Core.List.{append_assoc, append-nil}
use apue_note.Streams.{tolower, isupper, Stdout, fflush, putchar, lower_loop}

abbrev pub has_newline : List ℕ → Bool
has_newline [] = false
has_newline (c ∷ cs) = if c == b'\n' then true else has_newline cs

has_newline-append_one :
    (cs : List ℕ) (c : ℕ)
    → has_newline cs ≡ false
    → (c == b'\n') ≡ false
    → has_newline (cs ++ c ∷ []) ≡ false
has_newline-append_one [] c h e = rw e refl
has_newline-append_one (x ∷ cs) c h e = ground (arith, has_newline-append_one cs c)

module _ (accepts : ℕ → Bool) (b : ℕ) (bs : List ℕ) (k : ℕ) (o : Stdout) where
  lower_of : (if isupper b then tolower b else b) ≡ tolower b
  lower_of = ground arith

  on_newline :
      accepts k ≡ true
      → (tolower b == b'\n') ≡ true
      → lower_loop accepts (b ∷ bs) k o
        ≡ lower_loop accepts bs (k + 1) (fflush (putchar (tolower b) o))
  unfolding lower_loop
  on_newline a e = rw (lower_of, a, e) refl

  on_plain :
      accepts k ≡ true
      → (tolower b == b'\n') ≡ false
      → lower_loop accepts (b ∷ bs) k o ≡ lower_loop accepts bs (k + 1) (putchar (tolower b) o)
  unfolding lower_loop
  on_plain a e = rw (lower_of, a, e) refl

-- The result of the filter on `bs`, from the output `o`
abbrev pub Lowered : List ℕ → Stdout → ℕ × Stdout → Type 0
Lowered bs o r =
    (r.0 ≡ 0)
    × (r.1.flushed ++ r.1.buffered ≡ (o.flushed ++ o.buffered) ++ map tolower bs)
    × (has_newline r.1.buffered ≡ false)

-- When `putchar` succeeds, the filter ends with status 0, has written each letter in lower case, and
-- has passed on all up to the last newline.
pub lower_loop-Lowered :
    (accepts : ℕ → Bool) (bs : List ℕ) (k : ℕ) (o : Stdout)
    → ((i : ℕ) → accepts i ≡ true)
    → has_newline o.buffered ≡ false
    → Lowered bs o (lower_loop accepts bs k o)
unfolding lower_loop
lower_loop-Lowered accepts [] k o all h = (refl, sym (append-nil _), h)
lower_loop-Lowered accepts (b ∷ bs) k o all h =
    let c = tolower b in
    let one = append_assoc o.flushed o.buffered (c ∷ []) in
    let more = append_assoc (o.flushed ++ o.buffered) (c ∷ []) (map tolower bs) in
    elim (Bool-cases (c == b'\n')) [
      | inl newline ↦
          (let ih = lower_loop-Lowered accepts bs (k + 1) (fflush (putchar c o)) all refl in
            let out : (o.flushed ++ (o.buffered ++ c ∷ [])) ++ []
                ≡ (o.flushed ++ o.buffered) ++ c ∷ [] =
              append-nil _ ∙ sym one in
            rw (on_newline accepts b bs k o (all k) newline)
              (ih.0, ih.1 ∙ ap (λ l. l ++ map tolower bs) out ∙ more, ih.2))
      | inr plain ↦
          (let ih =
              lower_loop-Lowered accepts bs (k + 1) (putchar c o) all
                (has_newline-append_one o.buffered c h plain) in
            rw (on_plain accepts b bs k o (all k) plain)
              (ih.0, ih.1 ∙ ap (λ l. l ++ map tolower bs) (sym one) ∙ more, ih.2))
    ]
