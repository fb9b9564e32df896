-- ===== src/Order/Tests.antt =====
-- Runs of the programs of chapter_08/8.9.c, 8.9.2.c and 8.9.3.c
use apue_note.Common.{ℕ, zero, suc, ◌≡◌, refl, List, [], ◌∷◌, ◌++◌}
use apue_note.Common.Runs.{after}
use apue_note.Order.Progress.{Prefix, Goes, turns-Ordered}
use apue_note.Order.Mixed.{of_parent, of_child, race-whole}
use apue_note.Order.{
  Who, parent, child, charatatime, from_parent, from_child, parent_first, child_first, race, step,
  bytes,
}

abbrev rounds : ℕ → List Who
rounds zero = []
rounds (suc n) = parent ∷ child ∷ rounds n

turns-Ordered_example :
    (Prefix (from_parent ++ from_child) (after step parent_first (rounds 21))
      × Goes (from_parent ++ from_child) (after step parent_first (rounds 21)))
    × (Prefix (from_child ++ from_parent) (after step child_first (rounds 21))
        × Goes (from_child ++ from_parent) (after step child_first (rounds 21)))
turns-Ordered_example = turns-Ordered (rounds 21)

race_kept :
    let s = after step race (rounds 2) in
    ((r : List ℕ) × (s.parent_todo ≡ charatatime r) × (of_parent s.out ++ r ≡ from_parent))
    × ((r : List ℕ) × (s.child_todo ≡ charatatime r) × (of_child s.out ++ r ≡ from_child))
race_kept = race-whole (rounds 2)

-- "oouu": the lines are mixed.
race_mixes : bytes (after step race (rounds 2)).out ≡ b'o' ∷ b'o' ∷ b'u' ∷ b'u' ∷ []
unfolding step
race_mixes = refl
