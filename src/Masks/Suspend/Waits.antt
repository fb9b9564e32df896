-- ===== src/Masks/Suspend/Waits.antt =====
-- That the wait of chapter_10/10.16.2.c ends with SIGQUIT and no other way
use mathlib.Core.Path.{subst}
use apue_note.Common.{ℕ, zero, suc, ◌≡◌, refl, ◌⊎◌, Bool, true, false, List, [], ◌∷◌}
use apue_note.Common.Runs.{after, after-Inv}
use apue_note.Masks.Suspend.{
  interrupt, quit, Pc, signal_int, signal_quit, blocking, testing, suspending, suspended, resetting,
  restoring, exiting, exited, killed, Waiter, Event, goes, comes, start, step,
}

abbrev pub Came : List Event → Type 0
Came [] = ⊥
Came (goes ∷ es) = Came es
Came (comes interrupt ∷ es) = Came es
Came (comes quit ∷ es) = ◌≡◌ {A = ℕ} 0 0

abbrev Told : (came : Type 0) → (flag pending : Bool) → Type 0
Told came true pending = came
Told came false true = came
Told came false false = ◌≡◌ {A = ℕ} 0 0

-- A set flag, a pending signal and a step behind the loop tell of a SIGQUIT, and no signal is pending in
-- sigsuspend.
abbrev Inv : Type 0 → Pc → Bool → Bool → Type 0
Inv came signal_int flag pending = Told came flag pending
Inv came signal_quit flag pending = Told came flag pending
Inv came blocking flag pending = Told came flag pending
Inv came testing flag pending = Told came flag pending
Inv came suspending flag pending = Told came flag pending
Inv came suspended flag pending = (pending ≡ false) × Told came flag pending
Inv came resetting flag pending = came
Inv came restoring flag pending = came
Inv came exiting flag pending = came
Inv came exited flag pending = came
Inv came killed flag pending = ◌≡◌ {A = ℕ} 0 0

abbrev InvOf : Type 0 → Waiter → Type 0
InvOf came s = Inv came s.pc s.quitflag s.pending

module _ (n : ℕ) where
  abbrev at_ : Pc → Bool → Bool → Waiter
  at_ p flag pending = record { pc = p; quitflag = flag; pending = pending; interrupts = n }

  main-Inv :
      (came : Type 0) (p : Pc) (flag pending : Bool)
      → Inv came p flag pending
      → InvOf came (step goes (at_ p flag pending))
  unfolding step
  main-Inv came signal_int flag pending h = h
  main-Inv came signal_quit flag pending h = h
  main-Inv came blocking flag pending h = h
  main-Inv came testing true pending h = h
  main-Inv came testing false pending h = h
  main-Inv came suspending true true h = h
  main-Inv came suspending false true h = h
  main-Inv came suspending flag false h = (refl, h)
  main-Inv came suspended flag pending h = h
  main-Inv came resetting flag pending h = h
  main-Inv came restoring flag true h = h
  main-Inv came restoring flag false h = h
  main-Inv came exiting flag pending h = h
  main-Inv came exited flag pending h = h
  main-Inv came killed flag pending h = h

  int-Inv :
      (came : Type 0) (p : Pc) (flag pending : Bool)
      → Inv came p flag pending
      → InvOf came (step (comes interrupt) (at_ p flag pending))
  unfolding step
  int-Inv came signal_int flag pending h = refl
  int-Inv came signal_quit flag pending h = h
  int-Inv came blocking flag pending h = h
  int-Inv came testing flag pending h = h
  int-Inv came suspending flag pending h = h
  int-Inv came suspended flag pending h = h.1
  int-Inv came resetting flag pending h = h
  int-Inv came restoring flag pending h = h
  int-Inv came exiting flag pending h = h
  int-Inv came exited flag pending h = h
  int-Inv came killed flag pending h = h

  quit-Inv :
      (old came : Type 0) (p : Pc) (flag pending : Bool)
      → came
      → Inv old p flag pending
      → InvOf came (step (comes quit) (at_ p flag pending))
  unfolding step
  quit-Inv old came signal_int flag pending c h = refl
  quit-Inv old came signal_quit flag pending c h = refl
  quit-Inv old came blocking flag pending c h = c
  quit-Inv old came testing true pending c h = c
  quit-Inv old came testing false pending c h = c
  quit-Inv old came suspending true pending c h = c
  quit-Inv old came suspending false pending c h = c
  quit-Inv old came suspended flag pending c h = c
  quit-Inv old came resetting flag pending c h = c
  quit-Inv old came restoring flag pending c h = c
  quit-Inv old came exiting flag pending c h = c
  quit-Inv old came exited flag pending c h = c
  quit-Inv old came killed flag pending c h = refl

step-Inv :
    (e : Event) (past : List Event) (s : Waiter)
    → InvOf (Came past) s
    → InvOf (Came (e ∷ past)) (step e s)
step-Inv goes past s h = main-Inv s.interrupts (Came past) s.pc s.quitflag s.pending h
step-Inv (comes interrupt) past s h = int-Inv s.interrupts (Came past) s.pc s.quitflag s.pending h
step-Inv (comes quit) past s h =
    quit-Inv s.interrupts (Came past) (Came (comes quit ∷ past)) s.pc s.quitflag s.pending refl h

waiter-Inv : (past : List Event) → InvOf (Came past) (after step start past)
waiter-Inv past = after-Inv step start (λ es s. InvOf (Came es) s) refl step-Inv past

-- main exits only behind a SIGQUIT.
pub main-exits_by_quit : (past : List Event) → (after step start past).pc ≡ exited → Came past
main-exits_by_quit past e =
    let s = after step start past in
    subst (λ p. Inv (Came past) p s.quitflag s.pending) e (waiter-Inv past)

-- No SIGQUIT waits for delivery while main is in sigsuspend.
pub suspended-none_pending :
    (past : List Event)
    → (after step start past).pc ≡ suspended
    → (after step start past).pending ≡ false
suspended-none_pending past e =
    let s = after step start past in
    (subst (λ p. Inv (Came past) p s.quitflag s.pending) e (waiter-Inv past)).0

abbrev pub steps : ℕ → List Event
steps zero = []
steps (suc n) = goes ∷ steps n

abbrev Over : Waiter → Type 0
Over s = (s.pc ≡ exited) ⊎ (s.pc ≡ killed)
