-- ===== src/Signals/Invariant.antt =====
-- What holds in every state of chapter_12/12.8.c
use mathlib.Core.Path.{subst}
use apue_note.Common.{
  ℕ, ◌≡◌, refl, ap, inl, inr, Bool-cases, Bool, true, false, ◌||◌, List, [], ◌∷◌,
}
use apue_note.Common.Runs.{after, after-Inv}
use apue_note.Signals.{
  Main, blocking, creating, locking, testing, waiting, relocking, unlocking, resetting, restoring,
  exiting, exited, killed, Thread, unborn, sigwaiting, printing, setting, signalling, returned,
  wake, alive, gets, thread_step, System, Event, main_goes, thread_goes, spurious, gets_int,
  gets_quit, start, step,
}

-- The holder of the mutex
abbrev pub holds : Main → Bool
holds testing = true
holds unlocking = true
holds other = false

abbrev pub thread_holds : Thread → Bool
thread_holds setting = true
thread_holds Thread.unlocking = true
thread_holds other = false

-- The thread has set quitflag.
abbrev pub has_set : Thread → Bool
has_set Thread.unlocking = true
has_set signalling = true
has_set returned = true
has_set other = false

abbrev is_unborn : Thread → Bool
is_unborn unborn = true
is_unborn other = false

abbrev pub is_returned : Thread → Bool
is_returned returned = true
is_returned other = false

-- The mutex is held by one at most, and `lock` tells of it.
abbrev pub Held : (main thread lock : Bool) → Type 0
Held true true lock = ⊥
Held true false lock = lock ≡ true
Held false true lock = lock ≡ true
Held false false lock = lock ≡ false

-- Up to its reset the flag tells that the thread has set it; main goes on only then, and it waits only
-- while the thread has its signal still to send.
abbrev pub Flagged : Main → Thread → Bool → Type 0
Flagged waiting t flag = (flag ≡ has_set t) × (is_returned t ≡ false)
Flagged unlocking t flag = has_set t ≡ true
Flagged resetting t flag = has_set t ≡ true
Flagged restoring t flag = has_set t ≡ true
Flagged exiting t flag = has_set t ≡ true
Flagged exited t flag = has_set t ≡ true
Flagged killed t flag = ◌≡◌ {A = ℕ} 0 0
Flagged blocking t flag = (is_unborn t ≡ true) × (flag ≡ false)
Flagged creating t flag = (is_unborn t ≡ true) × (flag ≡ false)
Flagged other t flag = flag ≡ has_set t

abbrev Early : (came : Type 0) → (quit_pending : Bool) → Type 0
Early came true = came
Early came false = ◌≡◌ {A = ℕ} 0 0

-- The thread goes beyond sigwaiting only by SIGQUIT.
abbrev pub Told : (came : Type 0) → Thread → (quit_pending : Bool) → Type 0
Told came unborn q = Early came q
Told came sigwaiting q = Early came q
Told came printing q = Early came q
Told came other q = came

abbrev pub Inv : Type 0 → System → Type 0
Inv came s =
    Held (holds s.main) (thread_holds s.thread) s.lock
    × Flagged s.main s.thread s.quitflag
    × Told came s.thread s.quit_pending

acquire : (b l : Bool) → Held false b l → l ≡ false → Held true b true
acquire true l h e = absurd (cc (h, e))
acquire false l h e = refl

release : (b l : Bool) → Held true b l → Held false b false
release true l h = absurd h
release false l h = refl

thread_acquire : (a l : Bool) → Held a false l → l ≡ false → Held a true true
thread_acquire true l h e = absurd (cc (h, e))
thread_acquire false l h e = refl

thread_release : (a l : Bool) → Held a true l → Held a false false
thread_release true l h = absurd h
thread_release false l h = refl

not_returned : (t : Thread) → has_set t ≡ false → is_returned t ≡ false
not_returned returned e = absurd (cc e)
not_returned unborn e = refl
not_returned sigwaiting e = refl
not_returned printing e = refl
not_returned Thread.locking e = refl
not_returned setting e = refl
not_returned Thread.unlocking e = refl
not_returned signalling e = refl

-- A step of the thread that leaves the flag as it is and comes to no end
Flagged-moves :
    (m : Main) (t next : Thread) (flag : Bool)
    → is_unborn t ≡ false
    → is_returned next ≡ false
    → has_set t ≡ has_set next
    → Flagged m t flag
    → Flagged m next flag
Flagged-moves blocking t next flag u r e (h, f) = absurd (cc (u, h))
Flagged-moves creating t next flag u r e (h, f) = absurd (cc (u, h))
Flagged-moves locking t next flag u r e h = cc (h, e)
Flagged-moves testing t next flag u r e h = cc (h, e)
Flagged-moves relocking t next flag u r e h = cc (h, e)
Flagged-moves waiting t next flag u r e (h, f) = (cc (h, e), r)
Flagged-moves unlocking t next flag u r e h = cc (h, e)
Flagged-moves resetting t next flag u r e h = cc (h, e)
Flagged-moves restoring t next flag u r e h = cc (h, e)
Flagged-moves exiting t next flag u r e h = cc (h, e)
Flagged-moves exited t next flag u r e h = cc (h, e)
Flagged-moves killed t next flag u r e h = h

Flagged-sets : (m : Main) (flag : Bool) → Flagged m setting flag → Flagged m Thread.unlocking true
Flagged-sets blocking flag (h, f) = absurd (cc h)
Flagged-sets creating flag (h, f) = absurd (cc h)
Flagged-sets locking flag h = refl
Flagged-sets testing flag h = refl
Flagged-sets relocking flag h = refl
Flagged-sets waiting flag h = (refl, refl)
Flagged-sets unlocking flag h = refl
Flagged-sets resetting flag h = refl
Flagged-sets restoring flag h = refl
Flagged-sets exiting flag h = refl
Flagged-sets exited flag h = refl
Flagged-sets killed flag h = refl

Flagged-wakes :
    (m : Main) (flag : Bool) → Flagged m signalling flag → Flagged (wake m) returned flag
Flagged-wakes blocking flag (h, f) = absurd (cc h)
Flagged-wakes creating flag (h, f) = absurd (cc h)
Flagged-wakes waiting flag (h, f) = h
Flagged-wakes locking flag h = h
Flagged-wakes testing flag h = h
Flagged-wakes relocking flag h = h
Flagged-wakes unlocking flag h = h
Flagged-wakes resetting flag h = h
Flagged-wakes restoring flag h = h
Flagged-wakes exiting flag h = h
Flagged-wakes exited flag h = h
Flagged-wakes killed flag h = h

wake-Inv :
    (m : Main) (t : Thread) (lock flag : Bool)
    → Held (holds m) (thread_holds t) lock
    → Held (holds (wake m)) (thread_holds t) lock
wake-Inv blocking t lock flag h = h
wake-Inv creating t lock flag h = h
wake-Inv locking t lock flag h = h
wake-Inv testing t lock flag h = h
wake-Inv waiting t lock flag h = h
wake-Inv relocking t lock flag h = h
wake-Inv unlocking t lock flag h = h
wake-Inv resetting t lock flag h = h
wake-Inv restoring t lock flag h = h
wake-Inv exiting t lock flag h = h
wake-Inv exited t lock flag h = h
wake-Inv killed t lock flag h = h

abbrev state : (lock flag i q : Bool) (n : ℕ) → Main → Thread → System
state lock flag i q n m t = record {
  main = m;
  thread = t;
  lock = lock;
  quitflag = flag;
  int_pending = i;
  quit_pending = q;
  interrupts = n;
}

sigwait-Inv :
    (lock flag : Bool) (n : ℕ) (came : Type 0) (m : Main) (i q : Bool)
    → Inv came (state lock flag i q n m sigwaiting)
    → Inv came (thread_step sigwaiting (state lock flag i q n m sigwaiting))
sigwait-Inv lock flag n came m true q (h, f, c) =
    (h, Flagged-moves m sigwaiting printing flag refl refl refl f, c)
sigwait-Inv lock flag n came m false true (h, f, c) =
    (h, Flagged-moves m sigwaiting Thread.locking flag refl refl refl f, c)
sigwait-Inv lock flag n came m false false h = h

module _ (lock flag i q : Bool) (n : ℕ) (came : Type 0) where
  abbrev at_ : Main → Thread → System
  at_ = state lock flag i q n

  -- Taking the mutex, at first or behind a wake-up
  takes :
      (m : Main) (t : Thread)
      → Held false (thread_holds t) lock
      → flag ≡ has_set t
      → Told came t q
      → lock ≡ false
      → Inv came (record (at_ m t) { main = testing; lock = true })
  takes m t h f c e = (acquire (thread_holds t) lock h e, f, c)

  main-Inv : (m : Main) (t : Thread) → Inv came (at_ m t) → Inv came (step main_goes (at_ m t))
  unfolding step
  main-Inv blocking t h = h
  main-Inv creating unborn (h, (e, f), c) = (h, f, c)
  main-Inv creating sigwaiting (h, (e, f), c) = absurd (cc e)
  main-Inv creating printing (h, (e, f), c) = absurd (cc e)
  main-Inv creating Thread.locking (h, (e, f), c) = absurd (cc e)
  main-Inv creating setting (h, (e, f), c) = absurd (cc e)
  main-Inv creating Thread.unlocking (h, (e, f), c) = absurd (cc e)
  main-Inv creating signalling (h, (e, f), c) = absurd (cc e)
  main-Inv creating returned (h, (e, f), c) = absurd (cc e)
  main-Inv locking t (h, f, c) = elim (Bool-cases lock) [
    | inl e ↦ rw e (rw⁻¹ e h, f, c)
    | inr e ↦ rw e (takes locking t h f c e)
  ]
  main-Inv testing t (h, f, c) = elim (Bool-cases flag) [
    | inl e ↦ rw e (h, cc (e, f), c)
    | inr e ↦ rw e (release (thread_holds t) lock h, (cc (e, f), not_returned t (cc (e, f))), c)
  ]
  main-Inv waiting t h = h
  main-Inv relocking t (h, f, c) = elim (Bool-cases lock) [
    | inl e ↦ rw e (rw⁻¹ e h, f, c)
    | inr e ↦ rw e (takes relocking t h f c e)
  ]
  main-Inv unlocking t (h, f, c) = (release (thread_holds t) lock h, f, c)
  main-Inv resetting t h = h
  main-Inv restoring t (h, f, c) = elim (Bool-cases (i || q)) [
    | inl e ↦ rw e (h, refl, c)
    | inr e ↦ rw e (h, f, c)
  ]
  main-Inv exiting t h = h
  main-Inv exited t h = h
  main-Inv killed t h = h

  thread-Inv : (m : Main) (t : Thread) → Inv came (at_ m t) → Inv came (thread_step t (at_ m t))
  thread-Inv m unborn h = h
  thread-Inv m sigwaiting h = sigwait-Inv lock flag n came m i q h
  thread-Inv m printing (h, f, c) =
      (h, Flagged-moves m printing sigwaiting flag refl refl refl f, c)
  thread-Inv m Thread.locking (h, f, c) = elim (Bool-cases lock) [
    | inl e ↦ rw e (rw⁻¹ e h, f, c)
    | inr e ↦ rw e (
      thread_acquire (holds m) lock h e,
      Flagged-moves m Thread.locking setting flag refl refl refl f,
      c,
    )
  ]
  thread-Inv m setting (h, f, c) = (h, Flagged-sets m flag f, c)
  thread-Inv m Thread.unlocking (h, f, c) = (
    thread_release (holds m) lock h,
    Flagged-moves m Thread.unlocking signalling flag refl refl refl f,
    c,
  )
  thread-Inv m signalling (h, f, c) = (wake-Inv m returned lock flag h, Flagged-wakes m flag f, c)
  thread-Inv m returned h = h

alive-Inv :
    (came : Type 0) (m : Main) (s t : System) → Inv came s → Inv came t → Inv came (alive m s t)
alive-Inv came blocking s t h k = k
alive-Inv came creating s t h k = k
alive-Inv came locking s t h k = k
alive-Inv came testing s t h k = k
alive-Inv came waiting s t h k = k
alive-Inv came relocking s t h k = k
alive-Inv came unlocking s t h k = k
alive-Inv came resetting s t h k = k
alive-Inv came restoring s t h k = k
alive-Inv came exiting s t h k = k
alive-Inv came exited s t h k = h
alive-Inv came killed s t h k = h

killed-Inv :
    (came : Type 0) (s : System)
    → holds s.main ≡ false
    → Inv came s
    → Inv came (record s { main = killed })
killed-Inv came s e (h, f, c) = (subst (λ b. Held b (thread_holds s.thread) s.lock) e h, refl, c)

Told-more : (old came : Type 0) (t : Thread) (q : Bool) → came → Told old t q → Told came t true
Told-more old came unborn q c h = c
Told-more old came sigwaiting q c h = c
Told-more old came printing q c h = c
Told-more old came Thread.locking q c h = c
Told-more old came setting q c h = c
Told-more old came Thread.unlocking q c h = c
Told-more old came signalling q c h = c
Told-more old came returned q c h = c

Told-same : (old came : Type 0) (t : Thread) (q : Bool) → came → Told old t q → Told came t q
Told-same old came unborn true c h = c
Told-same old came sigwaiting true c h = c
Told-same old came printing true c h = c
Told-same old came unborn false c h = refl
Told-same old came sigwaiting false c h = refl
Told-same old came printing false c h = refl
Told-same old came Thread.locking q c h = c
Told-same old came setting q c h = c
Told-same old came Thread.unlocking q c h = c
Told-same old came signalling q c h = c
Told-same old came returned q c h = c

abbrev pub Came : List Event → Type 0
Came [] = ⊥
Came (gets_quit ∷ es) = ◌≡◌ {A = ℕ} 0 0
Came (main_goes ∷ es) = Came es
Came (thread_goes ∷ es) = Came es
Came (spurious ∷ es) = Came es
Came (gets_int ∷ es) = Came es

-- A signal: `s` is the state, and `t` the one in which the signal waits.
gets-Inv :
    (came : Type 0) (m : Main) (s t : System)
    → s.main ≡ m
    → Inv came s
    → Inv came t
    → Inv came (gets m s t)
gets-Inv came blocking s t e h k = killed-Inv came s (ap holds e) h
gets-Inv came exiting s t e h k = killed-Inv came s (ap holds e) h
gets-Inv came exited s t e h k = h
gets-Inv came killed s t e h k = h
gets-Inv came creating s t e h k = k
gets-Inv came locking s t e h k = k
gets-Inv came testing s t e h k = k
gets-Inv came waiting s t e h k = k
gets-Inv came relocking s t e h k = k
gets-Inv came unlocking s t e h k = k
gets-Inv came resetting s t e h k = k
gets-Inv came restoring s t e h k = k

wakes-Flagged : (m : Main) (t : Thread) (flag : Bool) → Flagged m t flag → Flagged (wake m) t flag
wakes-Flagged waiting t flag h = h.0
wakes-Flagged blocking t flag h = h
wakes-Flagged creating t flag h = h
wakes-Flagged locking t flag h = h
wakes-Flagged testing t flag h = h
wakes-Flagged relocking t flag h = h
wakes-Flagged unlocking t flag h = h
wakes-Flagged resetting t flag h = h
wakes-Flagged restoring t flag h = h
wakes-Flagged exiting t flag h = h
wakes-Flagged exited t flag h = h
wakes-Flagged killed t flag h = h

step-Inv :
    (e : Event) (past : List Event) (s : System)
    → Inv (Came past) s
    → Inv (Came (e ∷ past)) (step e s)
unfolding step
step-Inv main_goes past s h =
    main-Inv s.lock s.quitflag s.int_pending s.quit_pending s.interrupts (Came past) s.main s.thread
      h
step-Inv thread_goes past s h = alive-Inv (Came past) s.main s (thread_step s.thread s) h (
    thread-Inv s.lock s.quitflag s.int_pending s.quit_pending s.interrupts (Came past) s.main
      s.thread h)
step-Inv spurious past s (h, f, c) =
    (wake-Inv s.main s.thread s.lock s.quitflag h, wakes-Flagged s.main s.thread s.quitflag f, c)
step-Inv gets_int past s h =
    gets-Inv (Came past) s.main s (record s { int_pending = true }) refl h h
step-Inv gets_quit past s (h, f, c) =
    gets-Inv (Came (gets_quit ∷ past)) s.main s (record s { quit_pending = true }) refl
      (h, f, Told-same (Came past) (Came (gets_quit ∷ past)) s.thread s.quit_pending refl c)
      (h, f, Told-more (Came past) (Came (gets_quit ∷ past)) s.thread s.quit_pending refl c)

pub system-Inv : (past : List Event) → Inv (Came past) (after step start past)
system-Inv past =
    after-Inv step start (λ es s. Inv (Came es) s) (refl, (refl, refl), refl) step-Inv past
