-- ===== src/Order/Progress.antt =====
-- That the programs of chapter_08/8.9.2.c and 8.9.3.c come to their end
use apue_note.Common.{
  ℕ, ◌+◌, ◌≡◌, refl, sym, ◌∙◌, ◌⊎◌, inl, inr, true, List, [], ◌∷◌, ◌++◌, append-nil, length, arith,
}
use apue_note.Common.Runs.{after}
use apue_note.Order.{
  Who, parent, child, Action, putc, tell, wait, System, charatatime, from_child, from_parent,
  parent_first, child_first, step, bytes,
}
use apue_note.Order.Turns.{
  Turn, parent_first-Inv, child_first-Inv, parent_first-prefix, child_first-prefix,
}

abbrev pub left : System → ℕ
left s = length s.parent_todo + length s.child_todo

-- What has come is a start of the output.
abbrev pub Prefix : List ℕ → System → Type 0
Prefix all s = (r : List ℕ) × (bytes s.out ++ r ≡ all)

-- Done with the whole output, or one step nearer to it
abbrev pub Goes : List ℕ → System → Type 0
Goes all s =
    ((left s ≡ 0) × (bytes s.out ≡ all))
    ⊎ (left (step parent s) + 1 ≡ left s)
    ⊎ (left (step child s) + 1 ≡ left s)

parent_step :
    (s : System) (a : Action) (todo : List Action)
    → s.parent_todo ≡ a ∷ todo
    → (a ≡ wait → s.child_told ≡ true)
    → left (step parent s) + 1 ≡ left s
unfolding step
parent_step s (putc c) todo e ready = rw e (omega arith)
parent_step s tell todo e ready = rw e (omega arith)
parent_step s wait todo e ready = rw (e, ready refl) (omega arith)

child_step :
    (s : System) (a : Action) (todo : List Action)
    → s.child_todo ≡ a ∷ todo
    → (a ≡ wait → s.parent_told ≡ true)
    → left (step child s) + 1 ≡ left s
unfolding step
child_step s (putc c) todo e ready = rw e (omega arith)
child_step s tell todo e ready = rw e (omega arith)
child_step s wait todo e ready = rw (e, ready refl) (omega arith)

parent_first_moves :
    (s : System)
    → Turn from_parent from_child s.parent_todo s.child_todo s.parent_told (bytes s.out)
    → Goes (from_parent ++ from_child) s
parent_first_moves s (inl ([], e1, e2, e3, e4)) =
    inr (inl (parent_step s tell [] e1 (λ e. absurd (cc e))))
parent_first_moves s (inl (b ∷ r, e1, e2, e3, e4)) =
    inr (inl (parent_step s (putc b) (charatatime r ++ (tell ∷ [])) e1 (λ e. absurd (cc e))))
parent_first_moves s (inr (inl (e1, e2, e3, e4))) =
    inr (inr (child_step s wait (charatatime from_child) e2 (λ _. e3)))
parent_first_moves s (inr (inr ([], e1, e2, e3))) =
    inl (rw (e1, e2) refl, sym (append-nil (bytes s.out)) ∙ e3)
parent_first_moves s (inr (inr (b ∷ r, e1, e2, e3))) =
    inr (inr (child_step s (putc b) (charatatime r) e2 (λ e. absurd (cc e))))

parent_first-Goes :
    (past : List Who) → Goes (from_parent ++ from_child) (after step parent_first past)
parent_first-Goes past = parent_first_moves (after step parent_first past) (parent_first-Inv past)

child_first_moves :
    (s : System)
    → Turn from_child from_parent s.child_todo s.parent_todo s.child_told (bytes s.out)
    → Goes (from_child ++ from_parent) s
child_first_moves s (inl ([], e1, e2, e3, e4)) =
    inr (inr (child_step s tell [] e1 (λ e. absurd (cc e))))
child_first_moves s (inl (b ∷ r, e1, e2, e3, e4)) =
    inr (inr (child_step s (putc b) (charatatime r ++ (tell ∷ [])) e1 (λ e. absurd (cc e))))
child_first_moves s (inr (inl (e1, e2, e3, e4))) =
    inr (inl (parent_step s wait (charatatime from_parent) e2 (λ _. e3)))
child_first_moves s (inr (inr ([], e1, e2, e3))) =
    inl (rw (e1, e2) refl, sym (append-nil (bytes s.out)) ∙ e3)
child_first_moves s (inr (inr (b ∷ r, e1, e2, e3))) =
    inr (inl (parent_step s (putc b) (charatatime r) e2 (λ e. absurd (cc e))))

child_first-Goes :
    (past : List Who) → Goes (from_child ++ from_parent) (after step child_first past)
child_first-Goes past = child_first_moves (after step child_first past) (child_first-Inv past)

-- The outputs are never mixed and nobody gets stuck. In every interleaving of the program in which the
-- parent is first, the output is a start of its line and then the child's; the same holds with the child
-- first. In every reachable state both are done and the output is whole, or a step of one of them leaves
-- one action less to do.
pub turns-Ordered :
    (past : List Who)
    → (Prefix (from_parent ++ from_child) (after step parent_first past)
        × Goes (from_parent ++ from_child) (after step parent_first past))
      × (Prefix (from_child ++ from_parent) (after step child_first past)
          × Goes (from_child ++ from_parent) (after step child_first past))
turns-Ordered past = (
  (parent_first-prefix past, parent_first-Goes past),
  (child_first-prefix past, child_first-Goes past),
)
