-- ===== src/Relay.antt =====
-- chapter_10/10.16.3.c: TELL_WAIT, TELL_PARENT, WAIT_PARENT, TELL_CHILD and WAIT_CHILD over SIGUSR1
-- and SIGUSR2, and chapter_15/15.9.2.c: a parent and a child that take turns with them to count in
-- shared memory. A step is what a process does between two points at which the other process or a
-- signal may come in. The parent gets SIGUSR2 alone and the child SIGUSR1 alone, and both signals
-- have one handler, so that one bit is the pending set of a process and one its mask.
pub mod Turns
pub mod Lost
mod Tests
use apue_note.Common.{
  ℕ, zero, suc, ◌+◌, ◌≡◌, Bool, true, false, not, ◌&&◌, Option, none, some, List, [], ◌∷◌, ltb,
  ◌==◌, if◌then◌else◌,
}

-- Where a process stands: in its loop, or in `WAIT_PARENT` or `WAIT_CHILD`. `suspending` is the point
-- behind the test of `sigflag` and before `sigsuspend`, and `suspended` is in `sigsuspend`.
pub data Pc : Type 0 where
  updating telling testing suspending suspended clearing restoring finished failed : Pc

-- `i` is the loop's variable; `sigflag`, the pending signal, its blocked bit and that of `oldmask`.
pub record Proc : Type 0 where
  pub pc : Pc
  pub i : ℕ
  pub sigflag : Bool
  pub pending : Bool
  pub blocked : Bool
  pub oldmask : Bool

-- TELL_WAIT: both signals are caught and blocked.
unfoldable pub tell_wait : Proc → Proc
tell_wait p = record p { blocked = true; oldmask = p.blocked }

-- The handler.
unfoldable pub sig_usr : Proc → Proc
sig_usr p = record p { sigflag = true; pending = false }

-- TELL_PARENT and TELL_CHILD, at the process that is told.
unfoldable pub told : Proc → Proc
told p = record p { pending = true }

-- The steps of WAIT_PARENT and WAIT_CHILD: the test of the loop, the call of `sigsuspend`, the return
-- from it behind the handler, and the end with `back` as the point behind the call.
unfoldable pub wait_test : Proc → Proc
wait_test p = if p.sigflag then record p { pc = clearing } else record p { pc = suspending }

unfoldable pub wait_suspend : Proc → Proc
wait_suspend p = record p { pc = suspended }

unfoldable pub wait_wake : Proc → Option Proc
unfolding sig_usr
wait_wake p = if p.pending then some (record (sig_usr p) { pc = testing }) else none

unfoldable pub wait_clear : Proc → Proc
wait_clear p = record p { pc = restoring; sigflag = false }

unfoldable pub wait_restore : Pc → Proc → Proc
wait_restore back p = record p { pc = back; blocked = p.oldmask }

-- A pending signal that is not blocked may be delivered at any point of a live process; at the end of
-- `sigsuspend` the mask is back, and the delivery is `wait_wake`.
unfoldable pub deliver : Proc → Option Proc
unfolding sig_usr
deliver p =
    if p.pending && not p.blocked
    then (elim p.pc [ suspended ↦ none | finished ↦ none | failed ↦ none | _ ↦ some (sig_usr p) ])
    else none

pub data Who : Type 0 where
  parent child : Who

pub data Event : Type 0 where
  runs : Who → Event
  gets_signal : Who → Event

pub record System : Type 0 where
  pub area : ℕ
  pub parent : Proc
  pub child : Proc

-- The bound NLOOPS is a parameter.
module _ (nloops : ℕ) where
  -- The head of the parent's loop, for the next `i`.
  parent_loop : ℕ → Proc → Proc
  parent_loop i p =
      if ltb i nloops then record p { pc = updating; i = i } else record p { pc = finished; i = i }

  child_loop : ℕ → Proc → Proc
  child_loop i p =
      if ltb i (nloops + 1)
      then record p { pc = testing; i = i }
      else record p { pc = finished; i = i }

  -- `update`, and the test of what it returns.
  update_parent : System → System
  update_parent s =
      if s.area == s.parent.i
      then record s { area = s.area + 1; parent = record s.parent { pc = telling } }
      else record s { area = s.area + 1; parent = record s.parent { pc = failed } }

  update_child : System → System
  update_child s =
      if s.area == s.child.i
      then record s { area = s.area + 1; child = record s.child { pc = telling } }
      else record s { area = s.area + 1; child = record s.child { pc = failed } }

  -- The next step of the parent, if it has one.
  unfoldable pub go_parent : Pc → System → Option System
  unfolding parent_loop update_parent told wait_test wait_suspend wait_wake wait_clear wait_restore
  go_parent updating s = some (update_parent s)
  go_parent telling s =
      some (record s { parent = record s.parent { pc = testing }; child = told s.child })
  go_parent testing s = some (record s { parent = wait_test s.parent })
  go_parent suspending s = some (record s { parent = wait_suspend s.parent })
  go_parent suspended s = elim (wait_wake s.parent) [
    | none ↦ none
    | some p ↦ some (record s { parent = p })
  ]
  go_parent clearing s = some (record s { parent = wait_clear s.parent })
  go_parent restoring s =
      some (record s { parent = parent_loop (s.parent.i + 2) (wait_restore restoring s.parent) })
  go_parent finished s = none
  go_parent failed s = none

  -- The next step of the child, if it has one.
  unfoldable pub go_child : Pc → System → Option System
  unfolding child_loop update_child told wait_test wait_suspend wait_wake wait_clear wait_restore
  go_child updating s = some (update_child s)
  go_child telling s =
      some (record s { child = child_loop (s.child.i + 2) s.child; parent = told s.parent })
  go_child testing s = some (record s { child = wait_test s.child })
  go_child suspending s = some (record s { child = wait_suspend s.child })
  go_child suspended s = elim (wait_wake s.child) [
    | none ↦ none
    | some p ↦ some (record s { child = p })
  ]
  go_child clearing s = some (record s { child = wait_clear s.child })
  go_child restoring s = some (record s { child = wait_restore updating s.child })
  go_child finished s = none
  go_child failed s = none

  unfoldable pub step : Event → System → Option System
  unfolding go_parent go_child deliver
  step (runs parent) s = go_parent s.parent.pc s
  step (runs child) s = go_child s.child.pc s
  step (gets_signal parent) s = elim (deliver s.parent) [
    | none ↦ none
    | some p ↦ some (record s { parent = p })
  ]
  step (gets_signal child) s = elim (deliver s.child) [
    | none ↦ none
    | some p ↦ some (record s { child = p })
  ]

  -- After TELL_WAIT and `fork`; both loops are entered.
  unfoldable pub start : System
  unfolding tell_wait parent_loop child_loop
  start =
      let p = tell_wait (record {
        pc = updating;
        i = 0;
        sigflag = false;
        pending = false;
        blocked = false;
        oldmask = false;
      }) in
      record { area = 0; parent = parent_loop 0 p; child = child_loop 1 p }

  pub data Reach : System → Type 0 where
    begin : Reach start
    next : {s t : System} (e : Event) → Reach s → step e s ≡ some t → Reach t
