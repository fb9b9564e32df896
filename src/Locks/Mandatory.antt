-- ===== src/Locks/Mandatory.antt =====
-- The locked file of chapter_14/14.3.2.c: the parent locks it for writing, and the child tries a lock for
-- reading that must not wait, and then a read.
pub mod Refused
use apue_note.Common.{ℕ, ◌≡◌, Bool, true, false, ◌&&◌, ◌||◌, not, List, [], ◌∷◌, if◌then◌else◌}

-- What the calls answer; `mandatory` tells whether the file system lets no read through a lock.
pub record Calls : Type 0 where
  pub write_lock_works : Bool
  pub waitpid_works : Bool
  pub lseek_works : Bool
  pub mandatory : Bool

-- The calls of both in their order
pub data Parent : Type 0 where
  locking telling waiting : Parent
  parent_exited : ℕ → Parent

pub data Child : Type 0 where
  awaiting read_locking seeking reading : Child
  child_exited : ℕ → Child

pub data Line : Type 0 where
  lock_refused read_failed read_ok : Line

-- `held` tells of the write lock of the parent; the lines are those of the child, the last one first.
pub record System : Type 0 where
  pub parent : Parent
  pub child : Child
  pub told : Bool
  pub held : Bool
  pub lines : List Line

pub data Who : Type 0 where
  parent_goes child_goes : Who

-- The two behind fork
abbrev pub start : System
start = record { parent = locking; child = awaiting; told = false; held = false; lines = [] }

abbrev has_exited : Child → Bool
has_exited (child_exited n) = true
has_exited other = false

-- err_sys and the end of a process give its lock back.
abbrev pub parent_step : Calls → Parent → System → System
parent_step calls locking s =
    if calls.write_lock_works
    then record s { parent = telling; held = true }
    else record s { parent = parent_exited 1 }
parent_step calls telling s = record s { parent = waiting; told = true }
parent_step calls waiting s =
    if not calls.waitpid_works
    then record s { parent = parent_exited 1; held = false }
    else if has_exited s.child
    then record s { parent = parent_exited 0; held = false }
    else s
parent_step calls (parent_exited n) s = s

-- read_lock is refused while the parent has its lock.
abbrev pub child_step : Calls → Child → System → System
child_step calls awaiting s = if s.told then record s { child = read_locking } else s
child_step calls read_locking s =
    if s.held
    then record s { child = seeking; lines = lock_refused ∷ s.lines }
    else record s { child = child_exited 1 }
child_step calls seeking s =
    if calls.lseek_works then record s { child = reading } else record s { child = child_exited 1 }
child_step calls reading s = record s {
  child = child_exited 0;
  lines = (if calls.mandatory && s.held then read_failed else read_ok) ∷ s.lines;
}
child_step calls (child_exited n) s = s

unfoldable pub step : Calls → Who → System → System
step calls parent_goes s = parent_step calls s.parent s
step calls child_goes s = child_step calls s.child s
