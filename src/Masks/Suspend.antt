-- ===== src/Masks/Suspend.antt =====
-- The wait for SIGQUIT by sigsuspend, chapter_10/10.16.2.c
pub mod Waits
use apue_note.Common.{ℕ, ◌+◌, Bool, true, false, not, if◌then◌else◌}

pub data Signal : Type 0 where
  interrupt quit : Signal

-- The calls of main in their order; `testing` is the test of the loop, and `suspended` is in sigsuspend.
pub data Pc : Type 0 where
  signal_int signal_quit blocking testing suspending suspended resetting restoring exiting : Pc
  exited killed : Pc

-- `pending` tells of a SIGQUIT that waits for delivery, and `interrupts` counts what sig_int has printed.
pub record Waiter : Type 0 where
  pub pc : Pc
  pub quitflag : Bool
  pub pending : Bool
  pub interrupts : ℕ

pub data Event : Type 0 where
  goes : Event
  comes : Signal → Event

abbrev pub start : Waiter
start = record { pc = signal_int; quitflag = false; pending = false; interrupts = 0 }

abbrev pub sig_int : Signal → Waiter → Waiter
sig_int interrupt s = record s { interrupts = s.interrupts + 1 }
sig_int quit s = record s { quitflag = true }

-- sigsuspend(&zeromask) delivers a pending signal at once, and returns behind a handler.
abbrev sigsuspend : Waiter → Waiter
sigsuspend s =
    if s.pending
    then record (sig_int quit s) { pc = testing; pending = false }
    else record s { pc = suspended }

-- sigprocmask(SIG_SETMASK, &oldmask) with the empty mask of the start
abbrev unblock : Waiter → Waiter
unblock s =
    if s.pending
    then record (sig_int quit s) { pc = exiting; pending = false }
    else record s { pc = exiting }

abbrev main : Pc → Waiter → Waiter
main signal_int s = record s { pc = signal_quit }
main signal_quit s = record s { pc = blocking }
main blocking s = record s { pc = testing }
main testing s = record s { pc = if s.quitflag then resetting else suspending }
main suspending s = sigsuspend s
main suspended s = s
main resetting s = record s { pc = restoring; quitflag = false }
main restoring s = unblock s
main exiting s = record s { pc = exited }
main exited s = s
main killed s = s

abbrev get_int : Pc → Waiter → Waiter
get_int signal_int s = record s { pc = killed }
get_int suspended s = record (sig_int interrupt s) { pc = testing }
get_int exited s = s
get_int killed s = s
get_int signal_quit s = sig_int interrupt s
get_int blocking s = sig_int interrupt s
get_int testing s = sig_int interrupt s
get_int suspending s = sig_int interrupt s
get_int resetting s = sig_int interrupt s
get_int restoring s = sig_int interrupt s
get_int exiting s = sig_int interrupt s

-- SIGQUIT waits while it is blocked, from `testing` to `restoring`.
abbrev get_quit : Pc → Waiter → Waiter
get_quit signal_int s = record s { pc = killed }
get_quit signal_quit s = record s { pc = killed }
get_quit blocking s = sig_int quit s
get_quit testing s = record s { pending = true }
get_quit suspending s = record s { pending = true }
get_quit suspended s = record (sig_int quit s) { pc = testing }
get_quit resetting s = record s { pending = true }
get_quit restoring s = record s { pending = true }
get_quit exiting s = sig_int quit s
get_quit exited s = s
get_quit killed s = s

unfoldable pub step : Event → Waiter → Waiter
step goes s = main s.pc s
step (comes interrupt) s = get_int s.pc s
step (comes quit) s = get_quit s.pc s
