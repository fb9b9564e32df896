-- ===== src/Timers/Tests.antt =====
-- Runs of chapter_10/p5.c, and its theorems at concrete queues.
use apue_note.Common.{
  ℕ, ◌≡◌, ◌+◌, refl, true, not, is_nil, none, some, Option, List, [], ◌∷◌, arith, if◌then◌else◌,
  ◌==◌,
}
use apue_note.Timers.{Timer, Timers, null, alarm_proc, main, print, print2, start}
use apue_note.Timers.Push.{IsQueue}
use apue_note.Timers.Fire.{alarm_proc-alarm, alarm_proc-touches_freed}

abbrev timer : ℕ → ℕ → Timer
timer at q = record { started_at = 100; ended_at = at; proc = print; next = q }

-- Blocks 1 and 2 are queued for the seconds 102 and 105, block 3 for nothing yet.
abbrev two_timers : Timers
two_timers = record start {
  mem = λ p. if p == 1 then timer 102 2 else if p == 2 then timer 105 null else timer 103 null;
  live = λ p. true;
  head = 1;
  alarm = some 102;
}

two_timers-IsQueue : IsQueue two_timers (1 ∷ 2 ∷ [])
two_timers-IsQueue = record { chain = ground arith; sorted = omega arith }

alarm_proc-alarm_example :
    (alarm_proc 102 two_timers).alarm
    ≡ (if (two_timers.mem 2).ended_at == 102 then none else some (two_timers.mem 2).ended_at)
alarm_proc-alarm_example =
    alarm_proc-alarm 102 two_timers 1 2 [] two_timers-IsQueue refl (omega arith)

alarm_proc-touches_freed_example :
    (alarm_proc 102 two_timers).touched_freed ≡ not (is_nil {A = ℕ} (2 ∷ []))
alarm_proc-touches_freed_example =
    alarm_proc-touches_freed 102 two_timers 1 (2 ∷ []) two_timers-IsQueue refl refl

-- `main` calls the four functions in the order of their deadlines, one at each of four seconds.
fired_after : ℕ → Option Timers → List ℕ
fired_after now none = []
fired_after now (some s) =
    (alarm_proc (now + 5)
      (alarm_proc (now + 3) (alarm_proc (now + 2) (alarm_proc (now + 1) s)))).fired

main_order : fired_after 100 (main 100) ≡ print ∷ print2 ∷ print ∷ print ∷ []
unfolding fired_after main alarm_proc
main_order = refl
