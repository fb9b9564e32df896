-- ===== src/Sleeps/Tests.antt =====
-- Runs of the sleeps and timed reads of chapter_10
use apue_note.Common.{ℕ, ◌+◌, ◌≡◌, refl, List, [], ◌∷◌, ◌++◌, true, arith}
use apue_note.Common.Runs.{after}
use apue_note.Sleeps.Lost.{Lost, sleep1-loses}
use apue_note.Sleeps.Ends.{steps, sleep2-returns}
use apue_note.Sleeps.Seconds.{seconds_of}
use apue_note.Sleeps.{paused, returned, Event, goes, second, gets_int, start, sleep1, sleep2}
use apue_note.Sleeps.Reads
use apue_note.Sleeps.Limits

sleep1-loses_example :
    Lost (
      after
        (sleep1 3)
        start
        ((goes ∷ second ∷ []) ++ (goes ∷ (seconds_of 3 ++ (goes ∷ goes ∷ [])))))
sleep1-loses_example = sleep1-loses 3 (goes ∷ second ∷ []) (omega arith)

-- SIGINT comes while sleep2 pauses with three of five seconds left.
abbrev interrupted : List Event
interrupted = gets_int ∷ goes ∷ second ∷ second ∷ goes ∷ goes ∷ []

in_pause : (after (sleep2 5) start interrupted).pc ≡ paused
unfolding sleep2
in_pause = refl

three_left : (after (sleep2 5) start (goes ∷ goes ∷ interrupted)).pc ≡ returned 3
unfolding sleep2
three_left = refl

sleep2-returns_example :
    let s = after (sleep2 5) start (goes ∷ (seconds_of 5 ++ (steps 4 ++ interrupted))) in
    (m : ℕ) × (s.pc ≡ returned m) × (s.slept + m ≡ 5)
sleep2-returns_example = sleep2-returns 5 interrupted (omega arith)

-- The handler of the alarm cuts sig_int short when it runs for five seconds.
sleep2-cuts : (after (sleep2 5) start (second ∷ second ∷ second ∷ interrupted)).cut_short ≡ true
unfolding sleep2
sleep2-cuts = refl

timed_read-limits_example :
    ((n : ℕ) × (out : List ℕ) × ((after Reads.jumping_read Reads.start
          (Limits.seconds_of 10 ++ (Reads.goes ∷ Reads.goes ∷ Reads.goes ∷ Reads.goes ∷ []))).pc
        ≡ Reads.exited n out))
    × ((after Reads.plain_read Reads.start (
          Reads.goes
          ∷ Reads.goes
          ∷ Reads.input (104 ∷ 105 ∷ [])
          ∷ (Limits.seconds_of 60 ++ (Reads.goes ∷ Reads.goes ∷ [])))).pc
        ≡ Reads.exited 0 (104 ∷ 105 ∷ []))
timed_read-limits_example = Limits.timed_read-limits (Reads.goes ∷ []) 60 (104 ∷ 105 ∷ [])
