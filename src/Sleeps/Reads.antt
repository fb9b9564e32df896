-- ===== src/Sleeps/Reads.antt =====
-- The reads with a time limit of ten seconds: chapter_10/10.10.4.c, whose handler returns, and
-- chapter_10/10.10.5.c, whose handler jumps to an end of the program. signal restarts a read that a
-- handler has interrupted, as on Linux.
use apue_note.Common.{ℕ, ◌-◌, Bool, true, false, Option, none, some, List, [], ◌==◌, if◌then◌else◌}

-- `exited` holds the status and what has been written.
pub data Pc : Type 0 where
  installing jumping arming reading cancelling writing : Pc
  exited : ℕ → List ℕ → Pc

pub record Reader : Type 0 where
  pub pc : Pc
  pub alarm : Option ℕ
  pub line : List ℕ

-- The process takes a step, a second passes, or the read gets bytes or fails.
pub data Event : Type 0 where
  goes second fails : Event
  input : List ℕ → Event

abbrev pub start : Reader
start = record { pc = installing; alarm = none; line = [] }

-- `jumps` tells of the program with setjmp, which comes between signal and alarm.
abbrev go_pc : (jumps : Bool) → Pc → Reader → Reader
go_pc jumps installing s = record s { pc = if jumps then jumping else arming }
go_pc jumps jumping s = record s { pc = arming }
go_pc jumps arming s = record s { pc = reading; alarm = some 10 }
go_pc jumps reading s = s
go_pc jumps cancelling s = record s { pc = writing; alarm = none }
go_pc jumps writing s = record s { pc = exited 0 s.line }
go_pc jumps (exited n out) s = s

-- What the read gives to a process that is in it
abbrev read_gives : Pc → List ℕ → Reader → Reader
read_gives reading bs s = record s { pc = cancelling; line = bs }
read_gives other bs s = s

abbrev read_fails : Pc → Reader → Reader
read_fails reading s = record s { pc = exited 1 []; alarm = none }
read_fails other s = s

-- The alarm: err_quit behind the jump, or nothing
abbrev alrm : (jumps : Bool) → Reader → Reader
alrm true s = record s { pc = exited 1 []; alarm = none }
alrm false s = record s { alarm = none }

abbrev tick : (jumps : Bool) → Option ℕ → Reader → Reader
tick jumps none s = s
tick jumps (some n) s = if n == 1 then alrm jumps s else record s { alarm = some (n - 1) }

unfoldable pub timed_read : (jumps : Bool) → Event → Reader → Reader
timed_read jumps goes s = go_pc jumps s.pc s
timed_read jumps second s = tick jumps s.alarm s
timed_read jumps (input bs) s = read_gives s.pc bs s
timed_read jumps fails s = read_fails s.pc s

-- 10.10.4.c and 10.10.5.c
unfoldable pub plain_read : Event → Reader → Reader
unfolding timed_read
plain_read = timed_read false

unfoldable pub jumping_read : Event → Reader → Reader
unfolding timed_read
jumping_read = timed_read true
