-- ===== src/Signals/Wakes.antt =====
-- That main of chapter_12/12.8.c is woken and ends behind SIGQUIT
use mathlib.Core.Path.{subst}
use apue_note.Common.{ℕ, zero, suc, ◌≡◌, refl, ap, ◌≢◌, ◌⊎◌, Bool, true, false, ◌&&◌, List, [], ◌∷◌}
use apue_note.Common.Runs.{after}
use apue_note.Signals.Invariant.{
  Held, Flagged, holds, thread_holds, has_set, is_returned, Came, Told, system-Inv,
}
use apue_note.Signals.{
  Main, locking, waiting, unlocking, exited, killed, Thread, returned, System, Event, main_goes,
  start, step,
}

never_both :
    (m : Main) (t : Thread) (lock : Bool)
    → Held (holds m) (thread_holds t) lock
    → holds m && thread_holds t ≡ false
never_both m t lock h = both (holds m) (thread_holds t) h
  where
    both : (a b : Bool) → Held a b lock → a && b ≡ false
    both true true k = absurd k
    both true false k = refl
    both false b k = refl

-- Main and the thread are never both between lock and unlock.
pub mutex-excludes :
    (past : List Event)
    → holds (after step start past).main && thread_holds (after step start past).thread ≡ false
mutex-excludes past =
    let s = after step start past in never_both s.main s.thread s.lock (system-Inv past).0

-- No wake-up is lost: once the thread has returned, main is not in pthread_cond_wait.
pub main-woken :
    (past : List Event)
    → (after step start past).thread ≡ returned
    → (after step start past).main ≢ waiting
main-woken past e w =
    let s = after step start past in
    let f = subst (λ m. Flagged m s.thread s.quitflag) w (system-Inv past).1 in
    absurd (cc (f.1, ap is_returned e))

-- Main exits only behind a SIGQUIT.
pub main-quits : (past : List Event) → (after step start past).main ≡ exited → Came past
main-quits past e =
    let s = after step start past in
    let f = subst (λ m. Flagged m s.thread s.quitflag) e (system-Inv past).1 in
    told s.thread s.quit_pending f (system-Inv past).2
  where
    told : (t : Thread) (q : Bool) → has_set t ≡ true → Told (Came past) t q → Came past
    told Thread.unborn q f c = absurd (cc f)
    told Thread.sigwaiting q f c = absurd (cc f)
    told Thread.printing q f c = absurd (cc f)
    told Thread.locking q f c = absurd (cc f)
    told Thread.setting q f c = absurd (cc f)
    told Thread.unlocking q f c = c
    told Thread.signalling q f c = c
    told returned q f c = c

abbrev pub steps : ℕ → List Event
steps zero = []
steps (suc n) = main_goes ∷ steps n

abbrev pub Over : System → Type 0
Over s = (s.main ≡ exited) ⊎ (s.main ≡ killed)

module _ (n : ℕ) where
  abbrev at_ : Main → (lock flag i q : Bool) → System
  at_ m lock flag i q = record {
    main = m;
    thread = returned;
    lock = lock;
    quitflag = flag;
    int_pending = i;
    quit_pending = q;
    interrupts = n;
  }
