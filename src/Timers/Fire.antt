-- ===== src/Timers/Fire.antt =====
-- `alarm_proc` and `settimeout` of chapter_10/p5.c: the queue, the alarm, and what goes wrong.
use apue_note.Common.{
  ℕ, ◌+◌, ◌^◌, ◌<◌, ◌≡◌, true, false, none, some, List, [], ◌∷◌, arith, ◌==◌, is_nil, not, update,
  if◌then◌else◌,
}
use apue_note.Timers.{Timer, Timers, null, alarm_proc}
use apue_note.Timers.Chain.{Chain, IsSorted, place}
use apue_note.Timers.Push.{IsQueue}

-- The alarm rings at the deadline of the first block of the queue, if there is one.
abbrev pub IsArmed : Timers → List ℕ → Type 0
IsArmed s [] = Unit {0}
IsArmed s (p ∷ ps) = s.alarm ≡ some (s.mem p).ended_at

-- Every block of the queue is live.
abbrev pub AllLive : Timers → List ℕ → Type 0
AllLive s [] = Unit {0}
AllLive s (p ∷ ps) = (s.live p ≡ true) × AllLive s ps

IsSorted-tail : (mem : ℕ → Timer) (lo : ℕ) (ps : List ℕ) → IsSorted mem lo ps → IsSorted mem 0 ps
IsSorted-tail mem lo [] s = tt
IsSorted-tail mem lo (p ∷ ps) s = (omega arith, s.1)

alarm_proc-head :
    (now : ℕ) (s : Timers) (p : ℕ) (ps : List ℕ)
    → Chain s.mem s.head (p ∷ ps)
    → (alarm_proc now s).head ≡ (s.mem p).next
unfolding alarm_proc
alarm_proc-head now s p ps c = ground (arith, c.0)

alarm_proc-mem : (now : ℕ) (s : Timers) → (alarm_proc now s).mem ≡ s.mem
unfolding alarm_proc
alarm_proc-mem now s = ground arith

-- Calls the first function, and drops its block from the queue.
pub alarm_proc-tail :
    (now : ℕ) (s : Timers) (p : ℕ) (ps : List ℕ)
    → IsQueue s (p ∷ ps)
    → IsQueue (alarm_proc now s) ps
      × ((alarm_proc now s).fired ≡ (s.mem p).proc ∷ s.fired)
      × ((alarm_proc now s).live p ≡ false)
unfolding alarm_proc
alarm_proc-tail now s p ps q = (
  record {
    chain = rw (alarm_proc-mem now s, alarm_proc-head now s p ps q.chain) q.chain.3;
    sorted = rw (alarm_proc-mem now s) (IsSorted-tail s.mem (s.mem p).ended_at ps q.sorted.1);
  },
  ground (arith, q.chain.0),
  ground (arith, q.chain.0),
)

-- When the alarm rings at the first deadline, the next alarm is set for the next deadline if that is
-- later; if it is the same, `alarm(0)` leaves no alarm behind.
pub alarm_proc-alarm :
    (now : ℕ) (s : Timers) (p q : ℕ) (ps : List ℕ)
    → IsQueue s (p ∷ q ∷ ps)
    → (s.mem p).ended_at ≡ now
    → (s.mem q).ended_at < 2 ^ 32
    → (alarm_proc now s).alarm
      ≡ (if (s.mem q).ended_at == now then none else some (s.mem q).ended_at)
unfolding alarm_proc
alarm_proc-alarm now s p q ps is now_eq small =
    ground (arith, is.chain.0, is.chain.3.0, is.chain.3.1, is.sorted.1.0)

-- With a second timer in the queue, `alarm_proc` reads the block that it has freed.
pub alarm_proc-touches_freed :
    (now : ℕ) (s : Timers) (p : ℕ) (ps : List ℕ)
    → IsQueue s (p ∷ ps)
    → s.touched_freed ≡ false
    → s.live p ≡ true
    → (alarm_proc now s).touched_freed ≡ not (is_nil ps)
unfolding alarm_proc
alarm_proc-touches_freed now s p [] q clean live = ground (arith, q.chain.0, q.chain.3)
alarm_proc-touches_freed now s p (x ∷ ps) q clean live =
    ground (arith, q.chain.0, q.chain.3.0, q.chain.3.1)

abbrev started_timer : ℕ → ℕ → ℕ → Timer
started_timer now seconds proc = record {
  started_at = now;
  ended_at = now + seconds;
  proc = proc;
  next = null;
}

abbrev with_timer : ℕ → Timer → Timers → Timers
with_timer fresh t s = record s {
  mem = update s.mem fresh t;
  live = update s.live fresh true;
  caught = true;
}

-- The queue `ps` with the new timer in its place, and the alarm for the first deadline.
pub record Started (now fresh seconds proc : ℕ) (s : Timers) (ps : List ℕ) (s' : Timers)
    : Type 0 where
  pub queue : IsQueue s' (place (with_timer fresh (started_timer now seconds proc) s).mem fresh ps)
  pub armed : IsArmed s' (place (with_timer fresh (started_timer now seconds proc) s).mem fresh ps)
  pub deadline : (s'.mem fresh).ended_at ≡ now + seconds
