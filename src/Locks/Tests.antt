-- ===== src/Locks/Tests.antt =====
-- Runs of chapter_14/14.3.c
use apue_note.Common.{ℕ, zero, suc, ◌≡◌, refl, true, false, List, [], ◌∷◌}
use apue_note.Common.Runs.{after}
use apue_note.Locks.Mandatory
use apue_note.Locks.Mandatory.Refused
use apue_note.Locks.Deadlock.{Goes, both_alike, main-breaks}
use apue_note.Locks.{Who, parent, child, act, succeeded, failed, start, step}

abbrev rounds : ℕ → List Who
rounds zero = []
rounds (suc n) = parent ∷ child ∷ rounds n

-- The child asks first and waits, and the parent's call fails.
parent_fails : (after step start (rounds 7)).parent_pc ≡ failed
unfolding step act
parent_fails = refl

child_succeeds : (after step start (rounds 7)).child_pc ≡ succeeded
unfolding step act
child_succeeds = refl

main-breaks_example :
    Goes (after step start (rounds 4))
    × (both_alike (after step start (rounds 4)).parent_pc (after step start (rounds 4)).child_pc
        ≡ false)
main-breaks_example = main-breaks (rounds 4)

abbrev works : Mandatory.Calls
works = record {
  write_lock_works = true;
  waitpid_works = true;
  lseek_works = true;
  mandatory = false;
}

abbrev rounds2 : ℕ → List Mandatory.Who
rounds2 zero = []
rounds2 (suc n) = Mandatory.parent_goes ∷ Mandatory.child_goes ∷ rounds2 n

main-Refused_example : Refused.Goes works (after (Mandatory.step works) Mandatory.start (rounds2 7))
main-Refused_example = Refused.main-Refused works refl refl refl (rounds2 7)

-- With a write lock that fails, the child waits for good.
child_waits :
    (after
      (Mandatory.step (record works { write_lock_works = false }))
      Mandatory.start
      (rounds2 7)).child
    ≡ Mandatory.awaiting
unfolding Mandatory.step
child_waits = refl
