-- ===== src/Locks.antt =====
-- Two processes that lock two bytes of a file in opposite orders: chapter_14/14.3.c. writew_lock waits for
-- a byte that the other holds, and fails with EDEADLK where the other waits for a byte of the caller;
-- TELL_WAIT and its kin are code that the program only calls. A process that ends gives its locks back.
pub mod Mandatory
mod Checked
mod Deadlock
mod Tests
use apue_note.Common.{◌≡◌, Bool, true, false, Option, none, some, if◌then◌else◌}

pub data Who : Type 0 where
  parent child : Who

-- The calls of each in their order; `blocked` waits in writew_lock for the second byte.
pub data Pc : Type 0 where
  locking telling waiting asking blocked exiting succeeded failed : Pc

-- The holders of the two bytes
pub record System : Type 0 where
  pub parent_pc : Pc
  pub child_pc : Pc
  pub parent_told : Bool
  pub child_told : Bool
  pub byte0 : Option Who
  pub byte1 : Option Who

abbrev pub start : System
start = record {
  parent_pc = locking;
  child_pc = locking;
  parent_told = false;
  child_told = false;
  byte0 = none;
  byte1 = none;
}

-- Where one process stands, whether it has told, and its first and second byte
pub record View : Type 0 where
  pub pc : Pc
  pub told : Bool
  pub first : Option Who
  pub second : Option Who

abbrev pub is_blocked : Pc → Bool
is_blocked blocked = true
is_blocked other = false

abbrev pub same_who : Who → Who → Bool
same_who parent parent = true
same_who child child = true
same_who parent child = false
same_who child parent = false

-- exit, with the locks of `me` given back
abbrev gives_back : Who → Option Who → Option Who
gives_back me none = none
gives_back me (some w) = if same_who w me then none else some w

abbrev ends : (me : Who) → Pc → View → View
ends me pc s = record s { pc = pc; first = gives_back me s.first; second = gives_back me s.second }

-- lockabyte on the first byte
abbrev locks_first : (me : Who) → Option Who → View → View
locks_first me none s = record s { pc = telling; first = some me }
locks_first me (some w) s = if same_who w me then record s { pc = telling } else s

-- lockabyte on the second byte; err_sys where writew_lock fails
abbrev locks_second : (me : Who) → (other : Pc) → Option Who → View → View
locks_second me other none s = record s { pc = exiting; second = some me }
locks_second me other (some w) s =
    if same_who w me
    then record s { pc = exiting }
    else if is_blocked other
    then ends me failed s
    else record s { pc = blocked }

-- A process in writew_lock gets the byte once it is free.
abbrev gets_second : (me : Who) → Option Who → View → View
gets_second me none s = record s { pc = exiting; second = some me }
gets_second me (some w) s = s

unfoldable pub act : (me : Who) → Pc → (other : Pc) → (other_told : Bool) → View → View
act me locking other other_told s = locks_first me s.first s
act me telling other other_told s = record s { pc = waiting; told = true }
act me waiting other other_told s = if other_told then record s { pc = asking } else s
act me asking other other_told s = locks_second me other s.second s
act me blocked other other_told s = gets_second me s.second s
act me exiting other other_told s = ends me succeeded s
act me succeeded other other_told s = s
act me failed other other_told s = s

-- The parent locks byte 1 first, and the child byte 0.
unfoldable pub step : Who → System → System
unfolding act
step parent s =
    let v : View = record {
      pc = s.parent_pc;
      told = s.parent_told;
      first = s.byte1;
      second = s.byte0;
    } in
    let v' : View = act parent s.parent_pc s.child_pc s.child_told v in
    record s { parent_pc = v'.pc; parent_told = v'.told; byte1 = v'.first; byte0 = v'.second }
step child s =
    let v : View = record {
      pc = s.child_pc;
      told = s.child_told;
      first = s.byte0;
      second = s.byte1;
    } in
    let v' : View = act child s.child_pc s.parent_pc s.parent_told v in
    record s { child_pc = v'.pc; child_told = v'.told; byte0 = v'.first; byte1 = v'.second }
