-- ===== src/Daemons/Names.antt =====
-- The name of the command in chapter_13/13.6.c and 13.6.2.c
use apue_note.Common.{
  ℕ, ◌≡◌, ◌≢◌, refl, ap, ◌∙◌, ◌⊎◌, inl, inr, Bool-cases, Option, none, some, List, [], ◌∷◌, ◌++◌,
  ◌==◌, arith,
}
use apue_note.Daemons.{strrchr, last_of, behind, cmd}

-- No byte of the list is `c`.
abbrev pub Free : ℕ → List ℕ → Type 0
Free c [] = ◌≡◌ {A = ℕ} 0 0
Free c (b ∷ bs) = (b ≢ c) × Free c bs

-- A list is split at its last `c`, or it has none.
abbrev Split : ℕ → List ℕ → Option (List ℕ) → Type 0
Split c s none = Free c s
Split c s (some t) = (p : List ℕ) × (q : List ℕ) × (t ≡ c ∷ q) × (s ≡ p ++ t) × Free c q

strrchr-Split : (s : List ℕ) (c : ℕ) → Split c s (strrchr s c)
unfolding strrchr
strrchr-Split [] c = refl
strrchr-Split (b ∷ bs) c = at_head b bs c (strrchr bs c) (strrchr-Split bs c)
  where
    at_head :
        (b : ℕ) (bs : List ℕ) (c : ℕ) (o : Option (List ℕ))
        → Split c bs o
        → Split c (b ∷ bs) (last_of b bs c o)
    at_head b bs c (some t) (p, q, e, whole, free) = (b ∷ p, q, e, ap (b ∷◌) whole, free)
    at_head b bs c none free = elim (Bool-cases (b == c)) [
      | inl e ↦ rw e ([], bs, ap (◌∷ bs) (ground arith), refl, free)
      | inr e ↦ rw e (ground arith, free)
    ]

-- The name that the daemon is given has no slash, and argv[0] is the name or ends in a slash and the name.
pub cmd-name :
    (argv0 : List ℕ)
    → Free b'/' (cmd argv0)
      × ((argv0 ≡ cmd argv0) ⊎ ((dirs : List ℕ) × (argv0 ≡ dirs ++ (b'/' ∷ cmd argv0))))
unfolding cmd
cmd-name argv0 = named (strrchr argv0 b'/') (strrchr-Split argv0 b'/')
  where
    named :
        (o : Option (List ℕ))
        → Split b'/' argv0 o
        → let name = behind argv0 o in
          Free b'/' name × ((argv0 ≡ name) ⊎ ((dirs : List ℕ) × (argv0 ≡ dirs ++ (b'/' ∷ name))))
    named none free = (free, inl refl)
    named (some t) (p, q, e, whole, free) = rw e (free, inr (p, whole ∙ ap (p ++◌) e))
