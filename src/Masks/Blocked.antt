-- ===== src/Masks/Blocked.antt =====
-- SIGQUIT while it is blocked, chapter_10/10.13.c
pub mod Reports
use apue_note.Common.{ℕ, ◌-◌, Bool, true, false, List, [], ◌∷◌, ◌++◌, ◌==◌, if◌then◌else◌}

-- "SIGQUIT pending", "caught SIGQUIT" and "SIGQUIT unblocked"
pub data Line : Type 0 where
  pending_line caught_line unblocked_line : Line

-- The calls of main in their order; the sleeps hold the seconds that they have left.
pub data Pc : Type 0 where
  catching blocking falling_asleep testing restoring announcing exiting exited killed : Pc
  sleeping resting : ℕ → Pc

-- `catches` tells that sig_quit is the disposition of SIGQUIT and not the default.
pub record Sleeper : Type 0 where
  pub pc : Pc
  pub catches : Bool
  pub pending : Bool
  pub out : List Line

pub data Event : Type 0 where
  goes second gets_quit : Event

abbrev pub start : Sleeper
start = record { pc = catching; catches = false; pending = false; out = [] }

-- A delivery leaves main at `next`: the handler prints and puts the default back.
abbrev deliver : (catches : Bool) → (next : Pc) → Sleeper → Sleeper
deliver true next s = record s {
  pc = next;
  catches = false;
  pending = false;
  out = s.out ++ (caught_line ∷ []);
}
deliver false next s = record s { pc = killed }

abbrev main : Pc → Sleeper → Sleeper
main catching s = record s { pc = blocking; catches = true }
main blocking s = record s { pc = falling_asleep }
main falling_asleep s = record s { pc = sleeping 5 }
main (sleeping k) s = s
main testing s = record s {
  pc = restoring;
  out = if s.pending then s.out ++ (pending_line ∷ []) else s.out;
}
main restoring s =
    if s.pending then deliver s.catches announcing s else record s { pc = announcing }
main announcing s = record s { pc = resting 5; out = s.out ++ (unblocked_line ∷ []) }
main (resting k) s = s
main exiting s = record s { pc = exited }
main exited s = s
main killed s = s

abbrev passes : Pc → Sleeper → Sleeper
passes (sleeping k) s = record s { pc = if k == 1 then testing else sleeping (k - 1) }
passes (resting k) s = record s { pc = if k == 1 then exiting else resting (k - 1) }
passes other s = s

-- A handler ends the second sleep early.
abbrev get_quit : Pc → Sleeper → Sleeper
get_quit catching s = deliver s.catches catching s
get_quit blocking s = deliver s.catches blocking s
get_quit falling_asleep s = record s { pending = true }
get_quit (sleeping k) s = record s { pending = true }
get_quit testing s = record s { pending = true }
get_quit restoring s = record s { pending = true }
get_quit announcing s = deliver s.catches announcing s
get_quit (resting k) s = deliver s.catches exiting s
get_quit exiting s = deliver s.catches exiting s
get_quit exited s = s
get_quit killed s = s

unfoldable pub step : Event → Sleeper → Sleeper
step goes s = main s.pc s
step second s = passes s.pc s
step gets_quit s = get_quit s.pc s
