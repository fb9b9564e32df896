-- ===== src/Sleeps.antt =====
-- The sleeps and timed reads of chapter_10: sleep1 (10.10.c), sleep2 (10.10.2.c and 10.10.3.c) and the
-- reads with a time limit (10.10.4.c and 10.10.5.c), against the seconds and signals that come between
-- any two of their steps.
pub mod Reads
mod Seconds
mod Lost
mod Wakes
mod Ends
mod Limits
mod Tests
use apue_note.Common.{
  ℕ, zero, suc, ◌+◌, ◌-◌, ◌≡◌, Bool, true, false, Option, none, some, List, [], ◌∷◌, ◌==◌,
  if◌then◌else◌,
}

-- Where a call of sleep1 or sleep2 stands: before signal, before alarm, between alarm and pause, in
-- pause, before alarm(0), behind the return with its value, and ended by a signal.
pub data Pc : Type 0 where
  installing arming pausing paused cancelling killed : Pc
  returned : ℕ → Pc

-- `in_int` tells that the handler sig_int of 10.10.3.c runs on top, and `cut_short` that it has been left
-- by a jump. `alarm` holds the seconds until the alarm rings, and `slept` those since it was set.
pub record Sleeper : Type 0 where
  pub pc : Pc
  pub alarm : Option ℕ
  pub slept : ℕ
  pub in_int : Bool
  pub cut_short : Bool

-- The process takes a step, a second passes, or SIGINT comes.
pub data Event : Type 0 where
  goes second gets_int : Event

abbrev pub start : Sleeper
start = record { pc = installing; alarm = none; slept = 0; in_int = false; cut_short = false }

-- What alarm(0) returns
abbrev pub left : Option ℕ → ℕ
left none = 0
left (some n) = n

abbrev pub set_alarm : ℕ → Option ℕ
set_alarm n = if n == 0 then none else some n

-- The steps that both sleeps share; a failing signal, which returns the seconds at once, is left out.
abbrev pub go_pc : Pc → (seconds : ℕ) → Sleeper → Sleeper
go_pc installing seconds s = record s { pc = arming }
go_pc arming seconds s = record s { pc = pausing; alarm = set_alarm seconds; slept = 0 }
go_pc pausing seconds s = record s { pc = paused }
go_pc paused seconds s = s
go_pc cancelling seconds s = record s { pc = returned (left s.alarm); alarm = none }
go_pc killed seconds s = s
go_pc (returned n) seconds s = s

-- A handler's return ends pause.
abbrev pub after_handler : Pc → Pc
after_handler paused = cancelling
after_handler installing = installing
after_handler arming = arming
after_handler pausing = pausing
after_handler cancelling = cancelling
after_handler killed = killed
after_handler (returned n) = returned n

-- The handler of SIGALRM in sleep1 does nothing.
abbrev pub alrm1 : Sleeper → Sleeper
alrm1 s = record s { pc = after_handler s.pc }

-- In sleep2 it jumps behind pause, out of sig_int too.
abbrev pub alrm2 : Sleeper → Sleeper
alrm2 s = record s { pc = cancelling; in_int = false; cut_short = s.in_int }

-- A second of the alarm: at the last one the signal comes.
abbrev pub tick : (Sleeper → Sleeper) → Option ℕ → Sleeper → Sleeper
tick alrm none s = s
tick alrm (some n) s =
    if n == 1
    then alrm (record s { alarm = none; slept = s.slept + 1 })
    else record s { alarm = some (n - 1); slept = s.slept + 1 }

-- SIGINT keeps its default in 10.10.c, which ends the process.
unfoldable pub sleep1 : (seconds : ℕ) → Event → Sleeper → Sleeper
sleep1 seconds goes s = go_pc s.pc seconds s
sleep1 seconds second s = tick alrm1 s.alarm s
sleep1 seconds gets_int s = record s { pc = killed; alarm = none }

-- With the handler sig_int of 10.10.3.c, whose loop runs until a step of the process ends it.
unfoldable pub sleep2 : (seconds : ℕ) → Event → Sleeper → Sleeper
sleep2 seconds goes s =
    if s.in_int then record s { in_int = false; pc = after_handler s.pc } else go_pc s.pc seconds s
sleep2 seconds second s = tick alrm2 s.alarm s
sleep2 seconds gets_int s = record s { in_int = true }
