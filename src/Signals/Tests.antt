-- ===== src/Signals/Tests.antt =====
-- A run of chapter_12/12.8.c
use apue_note.Common.{◌≡◌, refl, List, ◌∷◌, ◌++◌}
use apue_note.Common.Runs.{after}
use apue_note.Signals.Wakes.{steps}
use apue_note.Signals.{Event, thread_goes, gets_quit, gets_int, exited, start, step}

-- Main waits, the thread prints for SIGINT and tells of SIGQUIT.
abbrev told : List Event
told =
    thread_goes
    ∷ thread_goes
    ∷ thread_goes
    ∷ thread_goes
    ∷ thread_goes
    ∷ thread_goes
    ∷ thread_goes
    ∷ gets_quit
    ∷ gets_int
    ∷ steps 4

told_exits : (after step start (steps 6 ++ told)).main ≡ exited
unfolding step
told_exits = refl
