-- ===== src/Order/Turns.antt =====
-- That the outputs of chapter_08/8.9.2.c and 8.9.3.c are never mixed
use apue_note.Common.{
  ℕ, ◌≡◌, refl, sym, ◌∙◌, ◌⊎◌, inl, inr, Bool, true, false, List, [], ◌∷◌, ◌++◌, append-nil,
  append-snoc, append_assoc, ap,
}
use apue_note.Common.Runs.{after, after-Inv}
use apue_note.Order.{
  Who, parent, child, Action, tell, wait, System, charatatime, from_child, from_parent,
  parent_first, child_first, step, bytes,
}

-- Where two processes stand of which one writes, tells and is done, and the other waits and writes
abbrev pub Turn : (first second : List ℕ) → (todo1 todo2 : List Action) → Bool → List ℕ → Type 0
Turn first second todo1 todo2 told out =
    ((r : List ℕ) × (todo1 ≡ charatatime r ++ (tell ∷ []))
      × (todo2 ≡ wait ∷ charatatime second)
      × (told ≡ false)
      × (out ++ r ≡ first))
    ⊎ ((todo1 ≡ []) × (todo2 ≡ wait ∷ charatatime second) × (told ≡ true) × (out ≡ first))
    ⊎ ((r : List ℕ) × (todo1 ≡ []) × (todo2 ≡ charatatime r) × (out ++ r ≡ first ++ second))

bytes-append : (xs ys : List (Who × ℕ)) → bytes (xs ++ ys) ≡ bytes xs ++ bytes ys
bytes-append [] ys = refl
bytes-append ((who, c) ∷ xs) ys = ap (c ∷◌) (bytes-append xs ys)

one_more :
    (out r : List ℕ) (c : ℕ) (all : List ℕ) → out ++ (c ∷ r) ≡ all → (out ++ (c ∷ [])) ++ r ≡ all
one_more out r c all e = append-snoc out c r ∙ e

abbrev at_ : (p c : List Action) (pt ct : Bool) (out : List (Who × ℕ)) → System
at_ p c pt ct out = record {
  parent_todo = p;
  child_todo = c;
  parent_told = pt;
  child_told = ct;
  out = out;
}

module _ (first second : List ℕ) (out : List (Who × ℕ)) (told : Bool) where
  -- The first one writes.
  first_puts :
      (who : Who) (b : ℕ) (r : List ℕ) (todo2 : List Action)
      → todo2 ≡ wait ∷ charatatime second
      → told ≡ false
      → bytes out ++ (b ∷ r) ≡ first
      → Turn first second (charatatime r ++ (tell ∷ [])) todo2 told (bytes (out ++ ((who, b) ∷ [])))
  first_puts who b r todo2 e f g = inl (
    r,
    refl,
    e,
    f,
    ap (λ o. o ++ r) (bytes-append out ((who, b) ∷ [])) ∙ one_more (bytes out) r b first g,
  )

  -- The first one tells.
  first_tells :
      (todo2 : List Action)
      → todo2 ≡ wait ∷ charatatime second
      → bytes out ++ [] ≡ first
      → Turn first second [] todo2 true (bytes out)
  first_tells todo2 e g = inr (inl (refl, e, refl, sym (append-nil (bytes out)) ∙ g))

  -- The second one has waited, or it writes.
  second_starts :
      (todo1 : List Action)
      → todo1 ≡ []
      → bytes out ≡ first
      → Turn first second todo1 (charatatime second) told (bytes out)
  second_starts todo1 e g = inr (inr (second, e, refl, ap (λ o. o ++ second) g))

  second_puts :
      (who : Who) (b : ℕ) (r : List ℕ) (todo1 : List Action)
      → todo1 ≡ []
      → bytes out ++ (b ∷ r) ≡ first ++ second
      → Turn first second todo1 (charatatime r) told (bytes (out ++ ((who, b) ∷ [])))
  second_puts who b r todo1 e g = inr (
      inr (
        r,
        e,
        refl,
        ap (λ o. o ++ r) (bytes-append out ((who, b) ∷ []))
            ∙ one_more (bytes out) r b (first ++ second) g,
      ))

abbrev ParentFirst : System → Type 0
ParentFirst s = Turn from_parent from_child s.parent_todo s.child_todo s.parent_told (bytes s.out)

module _ (t1 t2 : List Action) (told ct : Bool) (out : List (Who × ℕ)) where
  ParentFirst-parent :
      ParentFirst (at_ t1 t2 told ct out) → ParentFirst (step parent (at_ t1 t2 told ct out))
  unfolding step
  ParentFirst-parent (inl ([], e1, e2, e3, e4)) =
      rw e1 (first_tells from_parent from_child out told t2 e2 e4)
  ParentFirst-parent (inl (b ∷ r, e1, e2, e3, e4)) =
      rw e1 (first_puts from_parent from_child out told parent b r t2 e2 e3 e4)
  ParentFirst-parent (inr (inl (e1, e2, e3, e4))) = rw e1 (inr (inl (refl, e2, e3, e4)))
  ParentFirst-parent (inr (inr (r, e1, e2, e3))) = rw e1 (inr (inr (r, refl, e2, e3)))

  ParentFirst-child :
      ParentFirst (at_ t1 t2 told ct out) → ParentFirst (step child (at_ t1 t2 told ct out))
  unfolding step
  ParentFirst-child (inl (r, e1, e2, e3, e4)) = rw (e2, e3) (inl (r, e1, refl, refl, e4))
  ParentFirst-child (inr (inl (e1, e2, e3, e4))) =
      rw (e2, e3) (second_starts from_parent from_child out true t1 e1 e4)
  ParentFirst-child (inr (inr ([], e1, e2, e3))) = rw e2 (inr (inr ([], e1, refl, e3)))
  ParentFirst-child (inr (inr (b ∷ r, e1, e2, e3))) =
      rw e2 (second_puts from_parent from_child out told child b r t1 e1 e3)

abbrev ChildFirst : System → Type 0
ChildFirst s = Turn from_child from_parent s.child_todo s.parent_todo s.child_told (bytes s.out)

module _ (t1 t2 : List Action) (told ct : Bool) (out : List (Who × ℕ)) where
  ChildFirst-child :
      ChildFirst (at_ t2 t1 ct told out) → ChildFirst (step child (at_ t2 t1 ct told out))
  unfolding step
  ChildFirst-child (inl ([], e1, e2, e3, e4)) =
      rw e1 (first_tells from_child from_parent out told t2 e2 e4)
  ChildFirst-child (inl (b ∷ r, e1, e2, e3, e4)) =
      rw e1 (first_puts from_child from_parent out told child b r t2 e2 e3 e4)
  ChildFirst-child (inr (inl (e1, e2, e3, e4))) = rw e1 (inr (inl (refl, e2, e3, e4)))
  ChildFirst-child (inr (inr (r, e1, e2, e3))) = rw e1 (inr (inr (r, refl, e2, e3)))

  ChildFirst-parent :
      ChildFirst (at_ t2 t1 ct told out) → ChildFirst (step parent (at_ t2 t1 ct told out))
  unfolding step
  ChildFirst-parent (inl (r, e1, e2, e3, e4)) = rw (e2, e3) (inl (r, e1, refl, refl, e4))
  ChildFirst-parent (inr (inl (e1, e2, e3, e4))) =
      rw (e2, e3) (second_starts from_child from_parent out true t1 e1 e4)
  ChildFirst-parent (inr (inr ([], e1, e2, e3))) = rw e2 (inr (inr ([], e1, refl, e3)))
  ChildFirst-parent (inr (inr (b ∷ r, e1, e2, e3))) =
      rw e2 (second_puts from_child from_parent out told parent b r t1 e1 e3)

pub parent_first-Inv : (past : List Who) → ParentFirst (after step parent_first past)
parent_first-Inv past =
    after-Inv step parent_first (λ _ s. ParentFirst s) (inl (from_parent, refl, refl, refl, refl))
      keeps past
  where
    keeps : (e : Who) (past : List Who) (s : System) → ParentFirst s → ParentFirst (step e s)
    keeps parent past s h =
        ParentFirst-parent s.parent_todo s.child_todo s.parent_told s.child_told s.out h
    keeps child past s h =
        ParentFirst-child s.parent_todo s.child_todo s.parent_told s.child_told s.out h

pub child_first-Inv : (past : List Who) → ChildFirst (after step child_first past)
child_first-Inv past =
    after-Inv step child_first (λ _ s. ChildFirst s) (inl (from_child, refl, refl, refl, refl))
      keeps past
  where
    keeps : (e : Who) (past : List Who) (s : System) → ChildFirst s → ChildFirst (step e s)
    keeps parent past s h =
        ChildFirst-parent s.child_todo s.parent_todo s.child_told s.parent_told s.out h
    keeps child past s h =
        ChildFirst-child s.child_todo s.parent_todo s.child_told s.parent_told s.out h

Turn-prefix :
    (first second : List ℕ) (todo1 todo2 : List Action) (told : Bool) (out : List ℕ)
    → Turn first second todo1 todo2 told out
    → (r : List ℕ) × (out ++ r ≡ first ++ second)
Turn-prefix first second todo1 todo2 told out (inl (r, e1, e2, e3, e4)) =
    (r ++ second, sym (append_assoc out r second) ∙ ap (λ o. o ++ second) e4)
Turn-prefix first second todo1 todo2 told out (inr (inl (e1, e2, e3, e4))) =
    (second, ap (λ o. o ++ second) e4)
Turn-prefix first second todo1 todo2 told out (inr (inr (r, e1, e2, e3))) = (r, e3)

pub parent_first-prefix :
    (past : List Who)
    → (r : List ℕ) × (bytes (after step parent_first past).out ++ r ≡ from_parent ++ from_child)
parent_first-prefix past =
    let s = after step parent_first past in
    Turn-prefix from_parent from_child s.parent_todo s.child_todo s.parent_told (bytes s.out)
      (parent_first-Inv past)

pub child_first-prefix :
    (past : List Who)
    → (r : List ℕ) × (bytes (after step child_first past).out ++ r ≡ from_child ++ from_parent)
child_first-prefix past =
    let s = after step child_first past in
    Turn-prefix from_child from_parent s.child_todo s.parent_todo s.child_told (bytes s.out)
      (child_first-Inv past)
