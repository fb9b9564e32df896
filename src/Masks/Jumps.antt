-- ===== src/Masks/Jumps.antt =====
-- A handler that leaves by siglongjmp, and the masks that are printed: chapter_10/10.15.c
pub mod Printed
use apue_note.Common.{
  ℕ, ◌-◌, Bool, true, false, Option, none, some, List, [], ◌∷◌, ◌++◌, ◌==◌, if◌then◌else◌,
}

-- The words of pr_mask, without those that only tell the programs apart
pub data Place : Type 0 where
  starting_main starting_usr1 in_alrm finish_usr1 ending_main : Place

-- Whether SIGUSR1 and SIGALRM are blocked
pub record Mask : Type 0 where
  pub usr1 : Bool
  pub alrm : Bool

abbrev pub Line : Type 0
Line = Place × Mask

-- The steps of main, then those of sig_usr1, with the seconds that its loop still takes, then the branch
-- behind the jump.
pub data Pc : Type 0 where
  catching_usr1 catching_alrm starting saving enabling pausing : Pc
  entered setting_alarm taking_time finishing disabling jumping ending exiting exited killed : Pc
  looping : ℕ → Pc

pub record Jumper : Type 0 where
  pub pc : Pc
  pub canjump : Bool
  pub mask : Mask
  pub pending : Bool
  pub alarm : Option ℕ
  pub out : List Line

pub data Event : Type 0 where
  goes second gets_usr1 : Event

abbrev pub none_blocked : Mask
none_blocked = record { usr1 = false; alrm = false }

abbrev pub start : Jumper
start = record {
  pc = catching_usr1;
  canjump = false;
  mask = none_blocked;
  pending = false;
  alarm = none;
  out = [];
}

abbrev pub pr_mask : Place → Mask → List Line → List Line
pr_mask place mask out = out ++ ((place, mask) ∷ [])

-- Entry of the handler sig_usr1 from main, with SIGUSR1 blocked: it returns at once while canjump is 0.
abbrev sig_usr1 : Jumper → Jumper
sig_usr1 s =
    if s.canjump then record s { pc = entered; mask = record s.mask { usr1 = true } } else s

-- siglongjmp puts the mask of sigsetjmp back. A SIGUSR1 that has waited is delivered there, and sig_usr1
-- returns since canjump is 0.
abbrev siglongjmp : Jumper → Jumper
siglongjmp s = record s { pc = ending; mask = none_blocked; pending = false }

abbrev goes_on : Pc → Jumper → Jumper
goes_on catching_usr1 s = record s { pc = catching_alrm }
goes_on catching_alrm s = record s { pc = starting }
goes_on starting s = record s { pc = saving; out = pr_mask starting_main s.mask s.out }
goes_on saving s = record s { pc = enabling }
goes_on enabling s = record s { pc = pausing; canjump = true }
goes_on pausing s = s
goes_on entered s = record s { pc = setting_alarm; out = pr_mask starting_usr1 s.mask s.out }
goes_on setting_alarm s = record s { pc = taking_time; alarm = some 3 }
goes_on taking_time s = record s { pc = looping 6 }
goes_on (looping k) s = s
goes_on finishing s = record s { pc = disabling; out = pr_mask finish_usr1 s.mask s.out }
goes_on disabling s = record s { pc = jumping; canjump = false }
goes_on jumping s = siglongjmp s
goes_on ending s = record s { pc = exiting; out = pr_mask ending_main s.mask s.out }
goes_on exiting s = record s { pc = exited }
goes_on exited s = s
goes_on killed s = s

-- The loop ends in the first second that is more than five later than its start.
abbrev loops : Pc → Pc
loops (looping k) = if k == 1 then finishing else looping (k - 1)
loops other = other

-- sig_alrm runs with SIGALRM blocked too, and returns.
abbrev sig_alrm : Jumper → Jumper
sig_alrm s = record s { alarm = none; out = pr_mask in_alrm (record s.mask { alrm = true }) s.out }

abbrev pub tick : Option ℕ → Jumper → Jumper
tick none s = s
tick (some k) s = if k == 1 then sig_alrm s else record s { alarm = some (k - 1) }

abbrev pub passes : Jumper → Jumper
passes s = record (tick s.alarm s) { pc = loops s.pc }

abbrev gets : Pc → Jumper → Jumper
gets catching_usr1 s = record s { pc = killed }
gets catching_alrm s = sig_usr1 s
gets starting s = sig_usr1 s
gets saving s = sig_usr1 s
gets enabling s = sig_usr1 s
gets pausing s = sig_usr1 s
gets entered s = record s { pending = true }
gets setting_alarm s = record s { pending = true }
gets taking_time s = record s { pending = true }
gets (looping k) s = record s { pending = true }
gets finishing s = record s { pending = true }
gets disabling s = record s { pending = true }
gets jumping s = record s { pending = true }
gets ending s = sig_usr1 s
gets exiting s = sig_usr1 s
gets exited s = s
gets killed s = s

unfoldable pub step : Event → Jumper → Jumper
step goes s = goes_on s.pc s
step second s = passes s
step gets_usr1 s = gets s.pc s
