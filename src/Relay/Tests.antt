-- ===== src/Relay/Tests.antt =====
-- Schedules of chapter_15/15.9.2.c with NLOOPS at 4.
use apue_note.Common.{◌≡◌, ◌≢◌, refl, true, Option, none, some, List, [], ◌∷◌, ◌++◌}
use apue_note.Relay.{
  updating, suspending, failed, parent, child, System, Event, runs, gets_signal, step, start, Reach,
  begin, next,
}
use apue_note.Relay.Turns.{never_fails}

-- The state after a schedule, from a reachable state; an event with no step is passed over.
abbrev Run : Type 0
Run = (s : System) × Reach 4 s

go_on : Event → Run → Run
go_on e r = go (step 4 e r.0) refl
  where
    go : (o : Option System) → step 4 e r.0 ≡ o → Run
    go none q = r
    go (some t) q = (t, next e r.1 q)

run : List Event → Run → Run
unfolding go_on
run [] r = r
run (e ∷ es) r = run es (go_on e r)

-- The parent updates, tells and sleeps; the child wakes, updates and tells.
abbrev first_round : List Event
first_round =
    runs parent
    ∷ runs parent
    ∷ runs parent
    ∷ runs parent
    ∷ runs child
    ∷ runs child
    ∷ runs child
    ∷ runs child
    ∷ runs child
    ∷ runs child
    ∷ runs child
    ∷ runs child
    ∷ []

-- The parent wakes, updates, tells, and finds that `sigflag` is 0; the child updates and tells.
abbrev second_round : List Event
second_round =
    runs parent
    ∷ runs parent
    ∷ runs parent
    ∷ runs parent
    ∷ runs parent
    ∷ runs parent
    ∷ runs parent
    ∷ gets_signal child
    ∷ runs child
    ∷ runs child
    ∷ runs child
    ∷ runs child
    ∷ runs child
    ∷ []

-- The parent about to suspend itself in the second round, its signal pending
abbrev raced : Run
raced = run (first_round ++ second_round) (start 4, begin)

raced_state :
    (raced.0.parent.pc ≡ suspending) × (raced.0.parent.pending ≡ true) × (raced.0.area ≡ 4)
unfolding run start step
raced_state = (refl, refl, refl)

never_fails_example :
    (raced.0.parent.pc ≢ failed)
    × (raced.0.child.pc ≢ failed)
    × (raced.0.parent.pc ≡ updating → raced.0.child.pc ≢ updating)
never_fails_example = never_fails 4 raced.1
