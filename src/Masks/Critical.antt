-- ===== src/Masks/Critical.antt =====
-- SIGINT and SIGUSR1 around a critical region, and the masks that are printed: chapter_10/10.16.c
pub mod Region
use apue_note.Common.{ℕ, Bool, true, false, List, [], ◌∷◌, ◌++◌, if◌then◌else◌}

pub data Place : Type 0 where
  program_start critical_region in_sig_int after_return program_exit : Place

-- Whether SIGINT and SIGUSR1 are blocked
pub record Mask : Type 0 where
  pub int : Bool
  pub usr1 : Bool

abbrev pub Line : Type 0
Line = Place × Mask

pub data Pc : Type 0 where
  starting catching blocking critical suspending suspended returned restoring finishing exiting : Pc
  exited killed : Pc

-- The signals that wait for delivery, and what has been printed
pub record Program : Type 0 where
  pub pc : Pc
  pub mask : Mask
  pub int_pending : Bool
  pub usr1_pending : Bool
  pub out : List Line

pub data Event : Type 0 where
  goes gets_int gets_usr1 : Event

abbrev pub none_blocked : Mask
none_blocked = record { int = false; usr1 = false }

-- newmask and waitmask
abbrev pub newmask : Mask
newmask = record { int = true; usr1 = false }

abbrev pub waitmask : Mask
waitmask = record { int = false; usr1 = true }

abbrev pub start : Program
start = record {
  pc = starting;
  mask = none_blocked;
  int_pending = false;
  usr1_pending = false;
  out = [];
}

abbrev pub pr_mask : Place → Program → Program
pr_mask place s = record s { out = s.out ++ ((place, s.mask) ∷ []) }

-- The handler runs under the mask of the process and SIGINT, and the mask comes back behind it.
abbrev pub sig_int : Program → Program
sig_int s = record s { out = s.out ++ ((in_sig_int, record s.mask { int = true }) ∷ []) }

-- sigsuspend returns behind a handler, under the mask from before; SIGUSR1 keeps its default, so one that
-- has waited ends the process then.
abbrev returns : Program → Program
returns s = record (sig_int (record s { mask = waitmask })) {
  pc = if s.usr1_pending then killed else returned;
  mask = newmask;
  int_pending = false;
}

-- A SIGINT that waits is delivered at once by sigsuspend and by the mask of the start.
abbrev sigsuspend : Program → Program
sigsuspend s = if s.int_pending then returns s else record s { pc = suspended; mask = waitmask }

abbrev unblock : Program → Program
unblock s =
    let t = record s { pc = finishing; mask = none_blocked; int_pending = false } in
    if s.int_pending then sig_int t else t

abbrev main : Pc → Program → Program
main starting s = record (pr_mask program_start s) { pc = catching }
main catching s = record s { pc = blocking }
main blocking s = record s { pc = critical; mask = newmask }
main critical s = record (pr_mask critical_region s) { pc = suspending }
main suspending s = sigsuspend s
main suspended s = s
main returned s = record (pr_mask after_return s) { pc = restoring }
main restoring s = unblock s
main finishing s = record (pr_mask program_exit s) { pc = exiting }
main exiting s = record s { pc = exited }
main exited s = s
main killed s = s

abbrev pub get_int : Pc → Program → Program
get_int starting s = record s { pc = killed }
get_int catching s = record s { pc = killed }
get_int blocking s = sig_int s
get_int critical s = record s { int_pending = true }
get_int suspending s = record s { int_pending = true }
get_int suspended s = returns s
get_int returned s = record s { int_pending = true }
get_int restoring s = record s { int_pending = true }
get_int finishing s = sig_int s
get_int exiting s = sig_int s
get_int exited s = s
get_int killed s = s

-- SIGUSR1 ends the process, but in sigsuspend it waits.
abbrev pub get_usr1 : Pc → Program → Program
get_usr1 suspended s = record s { usr1_pending = true }
get_usr1 exited s = s
get_usr1 other s = record s { pc = killed }

unfoldable pub step : Event → Program → Program
step goes s = main s.pc s
step gets_int s = get_int s.pc s
step gets_usr1 s = get_usr1 s.pc s
