-- ===== src/Masks/Critical/Region.antt =====
-- The masks around the critical region of chapter_10/10.16.c
use mathlib.Core.Path.{subst}
use apue_note.Common.{
  ℕ, ◌≡◌, refl, ap, ◌∙◌, inl, inr, Bool-cases, Bool, true, false, List, [], ◌∷◌, ◌++◌,
  if◌then◌else◌, append-nil,
}
use apue_note.Common.Runs.{after, after-Inv}
use apue_note.Masks.Critical.{
  Place, program_start, critical_region, in_sig_int, after_return, program_exit, Mask, Line,
  none_blocked, newmask, waitmask, Pc, starting, catching, blocking, critical, suspending,
  suspended, returned, restoring, finishing, exiting, exited, killed, Program, Event, goes,
  gets_int, gets_usr1, start, step,
}

abbrev both : Mask
both = record { int = true; usr1 = true }

abbrev keeps : Place → Mask → Bool
keeps in_sig_int m = m.usr1
keeps other m = true

-- The lines without those of the handler outside sigsuspend, where SIGUSR1 is not blocked
unfoldable pub own : List Line → List Line
own [] = []
own ((place, m) ∷ out) = let rest = own out in if keeps place m then (place, m) ∷ rest else rest

own-append : (out more : List Line) → own (out ++ more) ≡ own out ++ own more
unfolding own
own-append [] more = refl
own-append ((place, m) ∷ out) more =
    rw (own-append out more)
      (elim (Bool-cases (keeps place m)) [ inl e ↦ rw e refl | inr e ↦ rw e refl ])

abbrev pub lines1 : List Line
lines1 = (program_start, none_blocked) ∷ []

abbrev pub lines2 : List Line
lines2 = lines1 ++ ((critical_region, newmask) ∷ [])

abbrev pub lines3 : List Line
lines3 = lines2 ++ ((in_sig_int, both) ∷ [])

abbrev pub lines4 : List Line
lines4 = lines3 ++ ((after_return, newmask) ∷ [])

abbrev pub lines5 : List Line
lines5 = lines4 ++ ((program_exit, none_blocked) ∷ [])

abbrev At : List Line → Mask → Mask → List Line → Type 0
At lines m mask out = (mask ≡ m) × (own out ≡ lines)

abbrev Inv : Pc → Mask → List Line → Type 0
Inv starting = At [] none_blocked
Inv catching = At lines1 none_blocked
Inv blocking = At lines1 none_blocked
Inv critical = At lines1 newmask
Inv suspending = At lines2 newmask
Inv suspended = At lines2 waitmask
Inv returned = At lines3 newmask
Inv restoring = At lines4 newmask
Inv finishing = At lines4 none_blocked
Inv exiting = At lines5 none_blocked
Inv exited = At lines5 none_blocked
Inv killed = λ m out. ◌≡◌ {A = ℕ} 0 0

abbrev InvOf : Program → Type 0
InvOf s = Inv s.pc s.mask s.out

abbrev at_ : Pc → Mask → Bool → Bool → List Line → Program
at_ p m i u out = record { pc = p; mask = m; int_pending = i; usr1_pending = u; out = out }

prints :
    (lines out : List Line) (l : Line)
    → own out ≡ lines
    → own (out ++ (l ∷ [])) ≡ lines ++ own (l ∷ [])
prints lines out l e = own-append out (l ∷ []) ∙ ap (λ o. o ++ own (l ∷ [])) e

-- A line of the handler without SIGUSR1 blocked is left out.
handles :
    (lines out : List Line) → own out ≡ lines → own (out ++ ((in_sig_int, newmask) ∷ [])) ≡ lines
unfolding own
handles lines out e = prints lines out (in_sig_int, newmask) e ∙ append-nil lines

module _ (out : List Line) where
  returns-Inv :
      (p : Pc) (u : Bool)
      → own out ≡ lines2
      → InvOf (step gets_int (at_ suspended waitmask false u out))
  unfolding step own
  returns-Inv p true o = refl
  returns-Inv p false o = (refl, prints lines2 out (in_sig_int, both) o)

  goes-Inv : (p : Pc) (m : Mask) (i u : Bool) → Inv p m out → InvOf (step goes (at_ p m i u out))
  unfolding step own
  goes-Inv starting m i u (e, o) = (e, rw e (prints [] out (program_start, none_blocked) o))
  goes-Inv catching m i u h = h
  goes-Inv blocking m i u (e, o) = (refl, o)
  goes-Inv critical m i u (e, o) = (e, rw e (prints lines1 out (critical_region, newmask) o))
  goes-Inv suspending m true true h = refl
  goes-Inv suspending m true false (e, o) = (refl, prints lines2 out (in_sig_int, both) o)
  goes-Inv suspending m false u (e, o) = (refl, o)
  goes-Inv suspended m i u h = h
  goes-Inv returned m i u (e, o) = (e, rw e (prints lines3 out (after_return, newmask) o))
  goes-Inv restoring m true u (e, o) = (refl, handles lines4 out o)
  goes-Inv restoring m false u (e, o) = (refl, o)
  goes-Inv finishing m i u (e, o) = (e, rw e (prints lines4 out (program_exit, none_blocked) o))
  goes-Inv exiting m i u h = h
  goes-Inv exited m i u h = h
  goes-Inv killed m i u h = h

  int-Inv : (p : Pc) (m : Mask) (i u : Bool) → Inv p m out → InvOf (step gets_int (at_ p m i u out))
  unfolding step own
  int-Inv starting m i u h = refl
  int-Inv catching m i u h = refl
  int-Inv blocking m i u (e, o) = (e, rw e (handles lines1 out o))
  int-Inv critical m i u h = h
  int-Inv suspending m i u h = h
  int-Inv suspended m i true h = refl
  int-Inv suspended m i false (e, o) = (refl, prints lines2 out (in_sig_int, both) o)
  int-Inv returned m i u h = h
  int-Inv restoring m i u h = h
  int-Inv finishing m i u (e, o) = (e, rw e (handles lines4 out o))
  int-Inv exiting m i u (e, o) = (e, rw e (handles lines5 out o))
  int-Inv exited m i u h = h
  int-Inv killed m i u h = h

  usr1-Inv :
      (p : Pc) (m : Mask) (i u : Bool) → Inv p m out → InvOf (step gets_usr1 (at_ p m i u out))
  unfolding step
  usr1-Inv suspended m i u h = h
  usr1-Inv exited m i u h = h
  usr1-Inv starting m i u h = refl
  usr1-Inv catching m i u h = refl
  usr1-Inv blocking m i u h = refl
  usr1-Inv critical m i u h = refl
  usr1-Inv suspending m i u h = refl
  usr1-Inv returned m i u h = refl
  usr1-Inv restoring m i u h = refl
  usr1-Inv finishing m i u h = refl
  usr1-Inv exiting m i u h = refl
  usr1-Inv killed m i u h = refl

program-Inv : (past : List Event) → InvOf (after step start past)
unfolding own
program-Inv past = after-Inv step start (λ _ s. InvOf s) (refl, refl) keeps_it past
  where
    keeps_it : (e : Event) (past : List Event) (s : Program) → InvOf s → InvOf (step e s)
    keeps_it goes past s h = goes-Inv s.out s.pc s.mask s.int_pending s.usr1_pending h
    keeps_it gets_int past s h = int-Inv s.out s.pc s.mask s.int_pending s.usr1_pending h
    keeps_it gets_usr1 past s h = usr1-Inv s.out s.pc s.mask s.int_pending s.usr1_pending h

-- Whenever main exits it has printed, beside calls of sig_int outside sigsuspend: the empty mask, SIGINT
-- in the critical region and behind sigsuspend, both signals in the handler that ended sigsuspend, and
-- at the end the empty mask again.
pub main-own :
    (past : List Event)
    → (after step start past).pc ≡ exited
    → own (after step start past).out ≡ lines5
main-own past e =
    let s = after step start past in (subst (λ p. Inv p s.mask s.out) e (program-Inv past)).1
