-- ===== src/Queues/Tests.antt =====
-- Two messages on queue 1 of chapter_17/17-3.c, of which one is printed
use apue_note.Common.{◌≡◌, refl, true, false, ◌==◌, if◌then◌else◌, none, some, List, [], ◌∷◌, arith}
use apue_note.Queues.{
  State, Event, arrives, receives, writes, prints, step, run, nothing, send_message,
}
use apue_note.Queues.Bounded.{Short, run-Short}

abbrev events : List Event
events =
    arrives 1 (104 ∷ []) ∷ receives 1 ∷ arrives 1 (105 ∷ []) ∷ writes 1 ∷ receives 1 ∷ prints 1 ∷ []

abbrev after : State
after = record {
  queue = λ j.
      if j == 1
      then []
      else (if j == 1
          then (105 ∷ []) ∷ []
          else (if j == 1 then [] else (if j == 1 then (104 ∷ []) ∷ [] else [])));
  held = λ j.
      if j == 1
      then some (105 ∷ [])
      else (if j == 1 then none else (if j == 1 then some (104 ∷ []) else none));
  socket = λ j. if j == 1 then [] else (if j == 1 then (104 ∷ []) ∷ [] else []);
  printed = (1, 104 ∷ []) ∷ [];
  overrun = false;
}

events-run : run events nothing ≡ some after
unfolding run step
events-run = refl

sent : send_message 3 true true (104 ∷ []) ≡ some (104 ∷ [])
unfolding send_message
sent = refl

nothing-Short : Short nothing
nothing-Short = (refl, λ _. tt, λ _. tt, λ _. tt)

run-Short_example : Short after
run-Short_example =
    run-Short events nothing after (omega arith, (tt, (omega arith, (tt, (tt, (tt, tt))))))
      nothing-Short events-run
