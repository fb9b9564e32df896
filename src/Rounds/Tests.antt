-- ===== src/Rounds/Tests.antt =====
-- Runs of chapter_10/p6.c
use apue_note.Common.{ℕ, zero, suc, ◌≡◌, refl, List, [], ◌∷◌}
use apue_note.Common.Runs.{after}
use apue_note.Rounds.{Who, child_goes, parent_goes, killed, start, step}

abbrev rounds : ℕ → List Who
rounds zero = []
rounds (suc n) = parent_goes ∷ child_goes ∷ rounds n

four_written : (after step start (rounds 20)).out ≡ 1 ∷ 2 ∷ 3 ∷ 4 ∷ []
unfolding step
four_written = refl

-- The child's signal comes before the parent has a handler for it.
parent_killed :
    (after step start (child_goes ∷ child_goes ∷ child_goes ∷ child_goes ∷ [])).parent.pc ≡ killed
unfolding step
parent_killed = refl
