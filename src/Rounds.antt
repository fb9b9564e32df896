-- ===== src/Rounds.antt =====
-- The rounds of parent and child of chapter_10/p6.c, which write the numbers in turn and call TELL_WAIT anew
-- in each round. The stages are the calls of a round; the process of each signal is told by its receiver:
-- SIGUSR1 goes to the child, and SIGUSR2 to the parent.
mod Numbers
mod Tests
use apue_note.Common.{ℕ, ◌+◌, ◌≡◌, Bool, true, false, List, [], ◌∷◌, ◌++◌, ltb, if◌then◌else◌}

-- TELL_WAIT is `installing` and `blocking`, a wait is `testing` to `restoring`, and `ended` is behind the loop.
pub data Pc : Type 0 where
  installing blocking writing telling testing suspended resetting restoring ended killed : Pc

-- `pending` tells of a signal that is blocked and waits.
pub record Proc : Type 0 where
  pub pc : Pc
  pub cur : ℕ
  pub sigflag : Bool
  pub pending : Bool
  pub installed : Bool
  pub blocked : Bool

-- The numbers that have been written to p6.txt, in their order
pub record System : Type 0 where
  pub child : Proc
  pub parent : Proc
  pub out : List ℕ

pub data Who : Type 0 where
  child_goes parent_goes : Who

abbrev pub proc : ℕ → Proc
proc cur = record {
  pc = installing;
  cur = cur;
  sigflag = false;
  pending = false;
  installed = false;
  blocked = false;
}

-- Behind fork; cur is 1 in the child, and 2 in the first round of the parent.
abbrev pub start : System
start = record { child = proc 1; parent = proc 2; out = [] }

-- A signal for a process: with no handler it ends it, in sigsuspend it sets the flag and wakes it, and
-- where it is blocked it waits. A process that has ended is gone.
abbrev pub get_signal : Pc → Proc → Proc
get_signal ended p = p
get_signal killed p = p
get_signal suspended p = record p { pc = testing; sigflag = true }
get_signal other p =
    if p.installed
    then (if p.blocked then record p { pending = true } else record p { sigflag = true })
    else record p { pc = killed }

-- TELL_WAIT
abbrev pub install : Proc → Proc
install p = record p { pc = blocking; installed = true }

-- The wait: while (sigflag == 0) sigsuspend(&zeromask); sigflag = 0
abbrev pub test : Proc → Proc
test p =
    if p.sigflag
    then record p { pc = resetting }
    else if p.pending
    then record p { pending = false; sigflag = true }
    else record p { pc = suspended }

-- sigprocmask with the mask of the start, which blocks nothing; the signal that has waited comes.
abbrev pub restore : Pc → Proc → Proc
restore next p =
    if p.pending
    then record p { pc = next; blocked = false; pending = false; sigflag = true }
    else record p { pc = next; blocked = false }

abbrev pub next_round : ℕ → Pc
next_round cur = if ltb cur 1000 then installing else ended

abbrev pub child_step : Pc → System → System
child_step installing s = record s { child = install s.child }
child_step blocking s = record s { child = record s.child { pc = writing; blocked = true } }
child_step writing s = record s {
  child = record s.child { pc = telling };
  out = s.out ++ (s.child.cur ∷ []);
}
child_step telling s = record s {
  child = record s.child { pc = testing };
  parent = get_signal s.parent.pc s.parent;
}
child_step testing s = record s { child = test s.child }
child_step suspended s = s
child_step resetting s = record s { child = record s.child { pc = restoring; sigflag = false } }
child_step restoring s = record s {
  child = restore (next_round (s.child.cur + 2)) (record s.child { cur = s.child.cur + 2 });
}
child_step ended s = s
child_step killed s = s

abbrev pub parent_step : Pc → System → System
parent_step installing s = record s { parent = install s.parent }
parent_step blocking s = record s { parent = record s.parent { pc = testing; blocked = true } }
parent_step testing s = record s { parent = test s.parent }
parent_step suspended s = s
parent_step resetting s = record s { parent = record s.parent { pc = restoring; sigflag = false } }
parent_step restoring s = record s { parent = restore writing s.parent }
parent_step writing s = record s {
  parent = record s.parent { pc = telling };
  out = s.out ++ (s.parent.cur ∷ []);
}
parent_step telling s = record s {
  parent = record s.parent { pc = next_round (s.parent.cur + 2); cur = s.parent.cur + 2 };
  child = get_signal s.child.pc s.child;
}
parent_step ended s = s
parent_step killed s = s

unfoldable pub step : Who → System → System
step child_goes s = child_step s.child.pc s
step parent_goes s = parent_step s.parent.pc s
