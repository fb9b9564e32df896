-- ===== src/Signals.antt =====
-- A thread that waits for signals: chapter_12/12.8.c, whose main waits for it on a condition variable.
pub mod Invariant
mod Wakes
mod Tests
use apue_note.Common.{ℕ, ◌+◌, Bool, true, false, ◌||◌, if◌then◌else◌}

-- The calls of main; `waiting` is in pthread_cond_wait with the mutex released, and `relocking` woken there.
pub data Main : Type 0 where
  blocking creating locking testing waiting relocking unlocking resetting restoring : Main
  exiting exited killed : Main

-- The calls of thr_fn: behind sigwait it prints or locks, by the signal.
pub data Thread : Type 0 where
  unborn sigwaiting printing locking setting unlocking signalling returned : Thread

pub record System : Type 0 where
  pub main : Main
  pub thread : Thread
  pub lock : Bool
  pub quitflag : Bool
  pub int_pending : Bool
  pub quit_pending : Bool
  pub interrupts : ℕ

-- A step of main or of the thread, a wake-up that nobody has caused, or a signal
pub data Event : Type 0 where
  main_goes thread_goes spurious gets_int gets_quit : Event

abbrev pub start : System
start = record {
  main = blocking;
  thread = unborn;
  lock = false;
  quitflag = false;
  int_pending = false;
  quit_pending = false;
  interrupts = 0;
}

-- pthread_mutex_lock stays where it is while the mutex is held.
abbrev main_step : Main → System → System
main_step blocking s = record s { main = creating }
main_step creating s = record s { main = locking; thread = sigwaiting }
main_step locking s = if s.lock then s else record s { main = testing; lock = true }
main_step testing s =
    if s.quitflag then record s { main = unlocking } else record s { main = waiting; lock = false }
main_step waiting s = s
main_step relocking s = if s.lock then s else record s { main = testing; lock = true }
main_step unlocking s = record s { main = resetting; lock = false }
main_step resetting s = record s { main = restoring; quitflag = false }
main_step restoring s =
    if s.int_pending || s.quit_pending
    then record s { main = killed }
    else record s { main = exiting }
main_step exiting s = record s { main = exited }
main_step exited s = s
main_step killed s = s

abbrev pub wake : Main → Main
wake waiting = relocking
wake other = other

-- sigwait takes a signal that waits, SIGINT before SIGQUIT.
abbrev pub thread_step : Thread → System → System
thread_step unborn s = s
thread_step sigwaiting s =
    if s.int_pending
    then record s { thread = printing; int_pending = false }
    else if s.quit_pending
    then record s { thread = locking; quit_pending = false }
    else s
thread_step printing s = record s { thread = sigwaiting; interrupts = s.interrupts + 1 }
thread_step locking s = if s.lock then s else record s { thread = setting; lock = true }
thread_step setting s = record s { thread = unlocking; quitflag = true }
thread_step unlocking s = record s { thread = signalling; lock = false }
thread_step signalling s = record s { thread = returned; main = wake s.main }
thread_step returned s = s

-- The thread ends with the process.
abbrev pub alive : Main → System → System → System
alive exited s t = s
alive killed s t = s
alive other s t = t

-- The signals end the process where they are not blocked, and wait for sigwait elsewhere.
abbrev pub gets : Main → System → System → System
gets blocking s t = record s { main = killed }
gets exiting s t = record s { main = killed }
gets exited s t = s
gets killed s t = s
gets other s t = t

unfoldable pub step : Event → System → System
step main_goes s = main_step s.main s
step thread_goes s = alive s.main s (thread_step s.thread s)
step spurious s = record s { main = wake s.main }
step gets_int s = gets s.main s (record s { int_pending = true })
step gets_quit s = gets s.main s (record s { quit_pending = true })
