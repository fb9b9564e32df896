-- ===== src/Relay/Lost.antt =====
-- chapter_15/15.9.2.c with chapter_10/10.16.3.c: after the first round the signals are not blocked, and
-- one that comes between the test of `sigflag` and `sigsuspend` is lost.
use apue_note.Common.{ℕ, ◌≡◌, true, false, none}
use apue_note.Relay.{suspended, parent, child, System, Event, step, Reach}

-- No process has a step, and no signal comes.
abbrev pub IsStuck : ℕ → System → Type 0
IsStuck nloops s = (e : Event) → step nloops e s ≡ none

-- The parent sleeps for good: it is in `sigsuspend`, and no signal is pending.
abbrev pub Asleep : System → Type 0
Asleep s =
    (s.parent.pc ≡ suspended)
    × (s.parent.pending ≡ false)
    × (s.parent.sigflag ≡ true)
    × (s.child.pending ≡ false)
    × (s.child.sigflag ≡ false)

module _ (nloops : ℕ) where
  StuckLater : System → Type 0
  StuckLater s = (t : System) × Reach nloops t × Asleep t × IsStuck nloops t
