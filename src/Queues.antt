-- ===== src/Queues.antt =====
-- Messages over message queues: the sender of chapter_17/17-4.c, and chapter_17/17-3.c, whose helpers pass
-- the messages of their queues on to sockets that main polls. A message is its bytes. The threads run in
-- any order, as a list of events.
mod Passing
mod Bounded
mod Tests
use apue_note.Common.{
  ℕ, zero, suc, ◌≡◌, Bool, true, false, ◌&&◌, ◌||◌, not, Option, none, some, List, [], ◌∷◌, ◌++◌,
  length, take, leb, ◌==◌, if◌then◌else◌, update,
}

abbrev pub Message : Type 0
Message = List ℕ

-- MAXMSZ
abbrev pub maxmsz : ℕ
maxmsz = 512

-- What 17-4.c sends with two arguments, the second a text, if msgget and msgsnd work; `none` is an end with
-- status 1. strncpy copies 511 bytes at most.
unfoldable pub send_message : (argc : ℕ) (msgget msgsnd : Bool) (text : Message) → Option Message
send_message argc msgget msgsnd text =
    if not (argc == 3)
    then none
    else (if not msgget then none else (if not msgsnd then none else some (take 511 text)))

-- The queues, what a helper has received and not written yet, the sockets, what main has printed, in order,
-- and whether main has written outside of buf.
pub record State : Type 0 where
  pub queue : ℕ → List Message
  pub held : ℕ → Option Message
  pub socket : ℕ → List Message
  pub printed : List (ℕ × Message)
  pub overrun : Bool

-- A message arrives at a queue, the helper of a queue receives, it writes, or main reads and prints.
pub data Event : Type 0 where
  arrives : ℕ → Message → Event
  receives : ℕ → Event
  writes : ℕ → Event
  prints : ℕ → Event

-- msgrcv with MSG_NOERROR: a message is cut at MAXMSZ bytes.
abbrev pub received : ℕ → List Message → Option Message → State → Option State
received i [] h s = none
received i (m ∷ ms) (some held) s = none
received i (m ∷ ms) none s =
    some (record s { queue = update s.queue i ms; held = update s.held i (some (take maxmsz m)) })

abbrev pub written : ℕ → Option Message → State → Option State
written i none s = none
written i (some m) s =
    some
      (record s { held = update s.held i none; socket = update s.socket i (s.socket i ++ m ∷ []) })

-- buf[n] = 0 is outside of buf if n is its size.
abbrev pub shown : ℕ → List Message → State → Option State
shown i [] s = none
shown i (m ∷ ms) s = some (record s {
  socket = update s.socket i ms;
  printed = s.printed ++ (i, take maxmsz m) ∷ [];
  overrun = s.overrun || leb maxmsz (length m);
})

unfoldable pub step : Event → State → Option State
step (arrives i m) s = some (record s { queue = update s.queue i (s.queue i ++ m ∷ []) })
step (receives i) s = received i (s.queue i) (s.held i) s
step (writes i) s = written i (s.held i) s
step (prints i) s = shown i (s.socket i) s

abbrev pub and_run : Option State → (State → Option State) → Option State
and_run none f = none
and_run (some s) f = f s

-- A run; `none` if a thread cannot take its step.
unfoldable pub run : List Event → State → Option State
run [] s = some s
run (e ∷ es) s = and_run (step e s) (run es)

-- The start of main: msgget, socketpair and pthread_create for each queue; `none` is an end with status 1.
abbrev pub nothing : State
nothing = record {
  queue = λ _. [];
  held = λ _. none;
  socket = λ _. [];
  printed = [];
  overrun = false;
}

unfoldable pub start : List (Bool × Bool × Bool) → Option State
start [] = some nothing
start ((get, pair, create) ∷ rest) = if get && (pair && create) then start rest else none
