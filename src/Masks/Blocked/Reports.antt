-- ===== src/Masks/Blocked/Reports.antt =====
-- What chapter_10/10.13.c prints
use mathlib.Core.Path.{subst}
use apue_note.Common.{
  ℕ, zero, suc, ◌≡◌, refl, ◌⊎◌, inl, inr, Bool-cases, Bool, true, false, List, [], ◌∷◌, ◌++◌, ◌==◌,
}
use apue_note.Common.Runs.{after, after-Inv, after-append}
use apue_note.Masks.Blocked.{
  Line, pending_line, caught_line, unblocked_line, Pc, catching, blocking, falling_asleep, testing,
  restoring, announcing, exiting, exited, killed, sleeping, resting, Sleeper, Event, goes, second,
  gets_quit, start, step,
}

-- What has been printed before the test for a pending signal
abbrev Before : Bool → List Line → Type 0
Before true out = out ≡ []
Before false out = out ≡ caught_line ∷ []

abbrev Tested : Bool → Bool → List Line → Type 0
Tested true true out = (out ≡ []) ⊎ (out ≡ pending_line ∷ [])
Tested true false out = out ≡ []
Tested false false out = out ≡ caught_line ∷ []
Tested false true out = (out ≡ caught_line ∷ []) ⊎ (out ≡ caught_line ∷ pending_line ∷ [])

abbrev Announcing : Bool → List Line → Type 0
Announcing true out = out ≡ []
Announcing false out = (out ≡ caught_line ∷ []) ⊎ (out ≡ pending_line ∷ caught_line ∷ [])

abbrev pub Ended : Bool → List Line → Type 0
Ended true out = out ≡ unblocked_line ∷ []
Ended false out =
    (out ≡ unblocked_line ∷ caught_line ∷ [])
    ⊎ (out ≡ caught_line ∷ unblocked_line ∷ [])
    ⊎ (out ≡ pending_line ∷ caught_line ∷ unblocked_line ∷ [])

abbrev Inv : Pc → (catches pending : Bool) → List Line → Type 0
Inv catching catches pending out = (catches ≡ false) × (out ≡ [])
Inv blocking catches pending out = Before catches out
Inv falling_asleep catches pending out = Before catches out
Inv (sleeping k) catches pending out = Before catches out
Inv testing catches pending out = Before catches out
Inv restoring catches pending out = Tested catches pending out
Inv announcing catches pending out = Announcing catches out
Inv (resting k) catches pending out = Ended catches out
Inv exiting catches pending out = Ended catches out
Inv exited catches pending out = Ended catches out
Inv killed catches pending out = ◌≡◌ {A = ℕ} 0 0

abbrev InvOf : Sleeper → Type 0
InvOf s = Inv s.pc s.catches s.pending s.out

abbrev at_ : Pc → Bool → Bool → List Line → Sleeper
at_ p catches pending out = record { pc = p; catches = catches; pending = pending; out = out }

tests :
    (catches pending : Bool) (out : List Line)
    → Before catches out
    → InvOf (step goes (at_ testing catches pending out))
unfolding step
tests true true out h = inr (rw h refl)
tests true false out h = h
tests false true out h = inr (rw h refl)
tests false false out h = h

restores :
    (catches pending : Bool) (out : List Line)
    → Tested catches pending out
    → InvOf (step goes (at_ restoring catches pending out))
unfolding step
restores true true out (inl h) = inl (rw h refl)
restores true true out (inr h) = inr (rw h refl)
restores true false out h = h
restores false true out h = refl
restores false false out h = inl h

announces :
    (catches pending : Bool) (out : List Line)
    → Announcing catches out
    → InvOf (step goes (at_ announcing catches pending out))
unfolding step
announces true pending out h = rw h refl
announces false pending out (inl h) = inr (inl (rw h refl))
announces false pending out (inr h) = inr (inr (rw h refl))

goes-Inv :
    (p : Pc) (catches pending : Bool) (out : List Line)
    → Inv p catches pending out
    → InvOf (step goes (at_ p catches pending out))
unfolding step
goes-Inv catching catches pending out h = h.1
goes-Inv blocking catches pending out h = h
goes-Inv falling_asleep catches pending out h = h
goes-Inv (sleeping k) catches pending out h = h
goes-Inv testing catches pending out h = tests catches pending out h
goes-Inv restoring catches pending out h = restores catches pending out h
goes-Inv announcing catches pending out h = announces catches pending out h
goes-Inv (resting k) catches pending out h = h
goes-Inv exiting catches pending out h = h
goes-Inv exited catches pending out h = h
goes-Inv killed catches pending out h = h

second-Inv :
    (p : Pc) (catches pending : Bool) (out : List Line)
    → Inv p catches pending out
    → InvOf (step second (at_ p catches pending out))
unfolding step
second-Inv (sleeping k) catches pending out h = elim (Bool-cases (k == 1)) [
  | inl e ↦ rw e h
  | inr e ↦ rw e h
]
second-Inv (resting k) catches pending out h = elim (Bool-cases (k == 1)) [
  | inl e ↦ rw e h
  | inr e ↦ rw e h
]
second-Inv catching catches pending out h = h
second-Inv blocking catches pending out h = h
second-Inv falling_asleep catches pending out h = h
second-Inv testing catches pending out h = h
second-Inv restoring catches pending out h = h
second-Inv announcing catches pending out h = h
second-Inv exiting catches pending out h = h
second-Inv exited catches pending out h = h
second-Inv killed catches pending out h = h

-- A pending signal more does not matter.
Tested-pending :
    (catches pending : Bool) (out : List Line)
    → Tested catches pending out
    → Tested catches true out
Tested-pending true true out h = h
Tested-pending true false out h = inl h
Tested-pending false true out h = h
Tested-pending false false out h = inl h

quit-Inv :
    (p : Pc) (catches pending : Bool) (out : List Line)
    → Inv p catches pending out
    → InvOf (step gets_quit (at_ p catches pending out))
unfolding step
quit-Inv catching true pending out h = absurd (cc (h.0))
quit-Inv catching false pending out h = refl
quit-Inv blocking true pending out h = rw h refl
quit-Inv blocking false pending out h = refl
quit-Inv falling_asleep catches pending out h = h
quit-Inv (sleeping k) catches pending out h = h
quit-Inv testing catches pending out h = h
quit-Inv restoring catches pending out h = Tested-pending catches pending out h
quit-Inv announcing true pending out h = inl (rw h refl)
quit-Inv announcing false pending out h = refl
quit-Inv (resting k) true pending out h = inl (rw h refl)
quit-Inv (resting k) false pending out h = refl
quit-Inv exiting true pending out h = inl (rw h refl)
quit-Inv exiting false pending out h = refl
quit-Inv exited catches pending out h = h
quit-Inv killed catches pending out h = h

sleeper-Inv : (past : List Event) → InvOf (after step start past)
sleeper-Inv past = after-Inv step start (λ _ s. InvOf s) (refl, refl) keeps past
  where
    keeps : (e : Event) (past : List Event) (s : Sleeper) → InvOf s → InvOf (step e s)
    keeps goes past s h = goes-Inv s.pc s.catches s.pending s.out h
    keeps second past s h = second-Inv s.pc s.catches s.pending s.out h
    keeps gets_quit past s h = quit-Inv s.pc s.catches s.pending s.out h

-- When main exits, sig_quit has printed at most once, and behind "SIGQUIT pending" it has printed before
-- "SIGQUIT unblocked": the output is one of four lists.
pub main-Ended :
    (past : List Event)
    → (after step start past).pc ≡ exited
    → Ended (after step start past).catches (after step start past).out
main-Ended past e =
    let s = after step start past in
    subst (λ p. Inv p s.catches s.pending s.out) e (sleeper-Inv past)

abbrev pub quits : ℕ → List Event
quits zero = []
quits (suc n) = gets_quit ∷ quits n

abbrev pub asleep : Bool → Sleeper
asleep pending = at_ (sleeping 5) true pending []

quits-pending : (n : ℕ) → after step (asleep false) (quits (suc n)) ≡ asleep true
unfolding step
quits-pending zero = refl
quits-pending (suc n) = rw (quits-pending n) refl

-- Any number of SIGQUITs in the first sleep, one at least, come to one call of sig_quit, between the
-- lines "SIGQUIT pending" and "SIGQUIT unblocked", and the next SIGQUIT ends the process.
pub main-once :
    (n : ℕ)
    → let woken = second ∷ second ∷ second ∷ second ∷ second ∷ [] in
      let s = after step start (
        gets_quit ∷ goes ∷ goes ∷ goes ∷ (woken ++ (quits (suc n) ++ (goes ∷ goes ∷ goes ∷ [])))) in
      (s.out ≡ pending_line ∷ caught_line ∷ unblocked_line ∷ []) × (s.pc ≡ killed)
unfolding step
main-once n =
    rw (after-append step start (quits (suc n)) (goes ∷ goes ∷ goes ∷ []), quits-pending n)
      (refl, refl)
