-- ===== src/Order/Mixed.antt =====
-- That the race of chapter_08/8.9.c mixes the lines but loses nothing of either
use apue_note.Common.{ℕ, ◌≡◌, refl, ap, ◌∙◌, Bool, List, [], ◌∷◌, ◌++◌, append-nil, append-snoc}
use apue_note.Common.Runs.{after, after-Inv}
use apue_note.Order.{
  Who, parent, child, Action, System, charatatime, from_child, from_parent, race, step,
}

-- The bytes of one process, in their order
abbrev pub of_parent : List (Who × ℕ) → List ℕ
of_parent [] = []
of_parent ((parent, c) ∷ out) = c ∷ of_parent out
of_parent ((child, c) ∷ out) = of_parent out

abbrev pub of_child : List (Who × ℕ) → List ℕ
of_child [] = []
of_child ((parent, c) ∷ out) = of_child out
of_child ((child, c) ∷ out) = c ∷ of_child out

of_parent-append : (xs ys : List (Who × ℕ)) → of_parent (xs ++ ys) ≡ of_parent xs ++ of_parent ys
of_parent-append [] ys = refl
of_parent-append ((parent, c) ∷ xs) ys = ap (c ∷◌) (of_parent-append xs ys)
of_parent-append ((child, c) ∷ xs) ys = of_parent-append xs ys

of_child-append : (xs ys : List (Who × ℕ)) → of_child (xs ++ ys) ≡ of_child xs ++ of_child ys
of_child-append [] ys = refl
of_child-append ((parent, c) ∷ xs) ys = of_child-append xs ys
of_child-append ((child, c) ∷ xs) ys = ap (c ∷◌) (of_child-append xs ys)

-- What one has written and what it has still to write is its line.
abbrev Whole : List ℕ → List Action → List ℕ → Type 0
Whole line todo written = (r : List ℕ) × (todo ≡ charatatime r) × (written ++ r ≡ line)

abbrev Inv : System → Type 0
Inv s =
    Whole from_parent s.parent_todo (of_parent s.out)
    × Whole from_child s.child_todo (of_child s.out)

Whole-same :
    (line : List ℕ) (todo : List Action) (w v : List ℕ)
    → v ≡ w
    → Whole line todo w
    → Whole line todo v
Whole-same line todo w v e (r, f, g) = (r, f, ap (λ o. o ++ r) e ∙ g)

Whole-putc :
    (line r w v : List ℕ) (c : ℕ)
    → v ≡ w ++ (c ∷ [])
    → w ++ (c ∷ r) ≡ line
    → Whole line (charatatime r) v
Whole-putc line r w v c e g = (r, refl, ap (λ o. o ++ r) e ∙ append-snoc w c r ∙ g)

abbrev at_ : (p c : List Action) (pt ct : Bool) (out : List (Who × ℕ)) → System
at_ p c pt ct out = record {
  parent_todo = p;
  child_todo = c;
  parent_told = pt;
  child_told = ct;
  out = out;
}

module _ (p c : List Action) (pt ct : Bool) (out : List (Who × ℕ)) where
  parent-Inv : Inv (at_ p c pt ct out) → Inv (step parent (at_ p c pt ct out))
  unfolding step
  parent-Inv (([], e, g), h) = rw e (([], refl, g), h)
  parent-Inv ((b ∷ r, e, g), h) = rw e (
    Whole-putc from_parent r (of_parent out) (of_parent (out ++ ((parent, b) ∷ []))) b
        (of_parent-append out ((parent, b) ∷ [])) g,
    Whole-same from_child c (of_child out) (of_child (out ++ ((parent, b) ∷ [])))
        (of_child-append out ((parent, b) ∷ []) ∙ append-nil (of_child out)) h,
  )

  child-Inv : Inv (at_ p c pt ct out) → Inv (step child (at_ p c pt ct out))
  unfolding step
  child-Inv (h, ([], e, g)) = rw e (h, ([], refl, g))
  child-Inv (h, (b ∷ r, e, g)) = rw e (
    Whole-same from_parent p (of_parent out) (of_parent (out ++ ((child, b) ∷ [])))
        (of_parent-append out ((child, b) ∷ []) ∙ append-nil (of_parent out)) h,
    Whole-putc from_child r (of_child out) (of_child (out ++ ((child, b) ∷ []))) b
        (of_child-append out ((child, b) ∷ [])) g,
  )

race-Inv : (past : List Who) → Inv (after step race past)
race-Inv past =
    after-Inv step race (λ _ s. Inv s) ((from_parent, refl, refl), (from_child, refl, refl)) keeps
      past
  where
    keeps : (e : Who) (past : List Who) (s : System) → Inv s → Inv (step e s)
    keeps parent past s h = parent-Inv s.parent_todo s.child_todo s.parent_told s.child_told s.out h
    keeps child past s h = child-Inv s.parent_todo s.child_todo s.parent_told s.child_told s.out h

-- However the two race, the bytes of each come in the order of its line, and once it is done all of them
-- have come.
pub race-whole :
    (past : List Who)
    → let s = after step race past in
      ((r : List ℕ) × (s.parent_todo ≡ charatatime r) × (of_parent s.out ++ r ≡ from_parent))
      × ((r : List ℕ) × (s.child_todo ≡ charatatime r) × (of_child s.out ++ r ≡ from_child))
race-whole past = race-Inv past
