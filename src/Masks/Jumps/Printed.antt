-- ===== src/Masks/Jumps/Printed.antt =====
-- The masks that chapter_10/10.15.c prints
use mathlib.Core.Path.{subst}
use apue_note.Common.{
  ℕ, ◌+◌, ◌-◌, ◌≤◌, ◌<◌, ◌≡◌, refl, inl, inr, Bool-cases, Bool, true, false, Option, none, some,
  List, [], ◌∷◌, ◌++◌, ◌==◌, arith,
}
use apue_note.Common.Runs.{after, after-Inv}
use apue_note.Masks.Jumps.{
  Line, starting_main, starting_usr1, in_alrm, finish_usr1, ending_main, Mask, none_blocked, Pc,
  catching_usr1, catching_alrm, starting, saving, enabling, pausing, entered, setting_alarm,
  taking_time, finishing, disabling, jumping, ending, exiting, exited, killed, looping, Jumper,
  Event, goes, second, gets_usr1, start, step,
}

abbrev usr1_blocked : Mask
usr1_blocked = record { usr1 = true; alrm = false }

abbrev both_blocked : Mask
both_blocked = record { usr1 = true; alrm = true }

-- The lines of a whole run, and its first one, two, three and four lines
abbrev pub lines1 : List Line
lines1 = (starting_main, none_blocked) ∷ []

abbrev pub lines2 : List Line
lines2 = lines1 ++ ((starting_usr1, usr1_blocked) ∷ [])

abbrev pub lines3 : List Line
lines3 = lines2 ++ ((in_alrm, both_blocked) ∷ [])

abbrev pub lines4 : List Line
lines4 = lines3 ++ ((finish_usr1, usr1_blocked) ∷ [])

abbrev pub lines5 : List Line
lines5 = lines4 ++ ((ending_main, none_blocked) ∷ [])

abbrev Off : Option ℕ → Type 0
Off none = ◌≡◌ {A = ℕ} 0 0
Off (some k) = ⊥

-- No alarm is set.
abbrev Quiet : List Line → Mask → (canjump : Bool) → Mask → Bool → Option ℕ → List Line → Type 0
Quiet lines m c mask canjump a out = (mask ≡ m) × (canjump ≡ c) × Off a × (out ≡ lines)

-- The alarm is set and rings before the loop is over, or it has rung.
abbrev Rings : (left : ℕ) → Option ℕ → List Line → Type 0
Rings left none out = out ≡ lines3
Rings left (some k) out = (0 < k) × (k + 3 ≤ left) × (out ≡ lines2)

abbrev Alarmed : (left : ℕ) → Mask → Bool → Option ℕ → List Line → Type 0
Alarmed left mask canjump a out =
    (mask ≡ usr1_blocked) × (canjump ≡ true) × (0 < left) × Rings left a out

abbrev Inv : Pc → Mask → (canjump : Bool) → Option ℕ → List Line → Type 0
Inv catching_usr1 = Quiet [] none_blocked false
Inv catching_alrm = Quiet [] none_blocked false
Inv starting = Quiet [] none_blocked false
Inv saving = Quiet lines1 none_blocked false
Inv enabling = Quiet lines1 none_blocked false
Inv pausing = Quiet lines1 none_blocked true
Inv entered = Quiet lines1 usr1_blocked true
Inv setting_alarm = Quiet lines2 usr1_blocked true
Inv taking_time = Alarmed 6
Inv (looping k) = Alarmed k
Inv finishing = Quiet lines3 usr1_blocked true
Inv disabling = Quiet lines4 usr1_blocked true
Inv jumping = Quiet lines4 usr1_blocked false
Inv ending = Quiet lines4 none_blocked false
Inv exiting = Quiet lines5 none_blocked false
Inv exited = Quiet lines5 none_blocked false
Inv killed = λ m c a out. ◌≡◌ {A = ℕ} 0 0

abbrev InvOf : Jumper → Type 0
InvOf s = Inv s.pc s.mask s.canjump s.alarm s.out

abbrev at_ : Pc → Mask → (canjump pending : Bool) → Option ℕ → List Line → Jumper
at_ p m c q a out = record { pc = p; canjump = c; mask = m; pending = q; alarm = a; out = out }

module _ (m : Mask) (c q : Bool) where
  goes-Inv :
      (p : Pc) (a : Option ℕ) (out : List Line)
      → Inv p m c a out
      → InvOf (step goes (at_ p m c q a out))
  unfolding step
  goes-Inv catching_usr1 a out h = h
  goes-Inv catching_alrm a out h = h
  goes-Inv starting a out (e, c0, off, o) = (e, c0, off, rw (e, o) refl)
  goes-Inv saving a out h = h
  goes-Inv enabling a out (e, c0, off, o) = (e, refl, off, o)
  goes-Inv pausing a out h = h
  goes-Inv entered a out (e, c0, off, o) = (e, c0, off, rw (e, o) refl)
  goes-Inv setting_alarm a out (e, c0, off, o) = (e, c0, omega arith, (omega arith, omega arith, o))
  goes-Inv taking_time a out h = h
  goes-Inv (looping k) a out h = h
  goes-Inv finishing a out (e, c0, off, o) = (e, c0, off, rw (e, o) refl)
  goes-Inv disabling a out (e, c0, off, o) = (e, refl, off, o)
  goes-Inv jumping a out (e, c0, off, o) = (refl, c0, off, o)
  goes-Inv ending a out (e, c0, off, o) = (e, c0, off, rw (e, o) refl)
  goes-Inv exiting a out h = h
  goes-Inv exited a out h = h
  goes-Inv killed a out h = h

  Quiet-second :
      (lines : List Line) (b : Mask) (j : Bool) (p : Pc) (a : Option ℕ) (out : List Line)
      → Quiet lines b j m c a out
      → let s = step second (at_ p m c q a out) in Quiet lines b j s.mask s.canjump s.alarm s.out
  unfolding step
  Quiet-second lines b j p none out h = h
  Quiet-second lines b j p (some k) out h = absurd (h.2)

  Alarmed-second :
      (left next : ℕ) (p : Pc) (a : Option ℕ) (out : List Line)
      → left ≤ next + 1
      → 0 < next
      → Alarmed left m c a out
      → let s = step second (at_ p m c q a out) in Alarmed next s.mask s.canjump s.alarm s.out
  unfolding step
  Alarmed-second left next p none out le pos (e, c0, lt, o) = (e, c0, pos, o)
  Alarmed-second left next p (some k) out le pos (e, c0, lt, (k_pos, k_le, o)) =
      elim (Bool-cases (k == 1)) [
        | inl one ↦ rw one (e, c0, pos, rw (e, o) refl)
        | inr more ↦ rw more (e, c0, pos, (ground arith, omega arith, o))
      ]

  loop-ends :
      (p : Pc) (a : Option ℕ) (out : List Line)
      → Alarmed 1 m c a out
      → let s = step second (at_ p m c q a out) in
        Quiet lines3 usr1_blocked true s.mask s.canjump s.alarm s.out
  unfolding step
  loop-ends p none out (e, c0, lt, o) = (e, c0, refl, o)
  loop-ends p (some k) out (e, c0, lt, (k_pos, k_le, o)) = absurd (omega arith)

  loop-second :
      (k : ℕ) (a : Option ℕ) (out : List Line)
      → Alarmed k m c a out
      → InvOf (step second (at_ (looping k) m c q a out))
  unfolding step
  loop-second k a out h = elim (Bool-cases (k == 1)) [
    | inl one ↦ rw one (
        let e : k ≡ 1 = ground arith in
        loop-ends (looping k) a out (subst (λ n. Alarmed n m c a out) e h))
    | inr more ↦
        rw more (
          let pos = h.2 in
          Alarmed-second k (k - 1) (looping k) a out (omega arith) (ground arith) h)
  ]

  second-Inv :
      (p : Pc) (a : Option ℕ) (out : List Line)
      → Inv p m c a out
      → InvOf (step second (at_ p m c q a out))
  unfolding step
  second-Inv catching_usr1 a out h = Quiet-second _ _ _ catching_usr1 a out h
  second-Inv catching_alrm a out h = Quiet-second _ _ _ catching_alrm a out h
  second-Inv starting a out h = Quiet-second _ _ _ starting a out h
  second-Inv saving a out h = Quiet-second _ _ _ saving a out h
  second-Inv enabling a out h = Quiet-second _ _ _ enabling a out h
  second-Inv pausing a out h = Quiet-second _ _ _ pausing a out h
  second-Inv entered a out h = Quiet-second _ _ _ entered a out h
  second-Inv setting_alarm a out h = Quiet-second _ _ _ setting_alarm a out h
  second-Inv finishing a out h = Quiet-second _ _ _ finishing a out h
  second-Inv disabling a out h = Quiet-second _ _ _ disabling a out h
  second-Inv jumping a out h = Quiet-second _ _ _ jumping a out h
  second-Inv ending a out h = Quiet-second _ _ _ ending a out h
  second-Inv exiting a out h = Quiet-second _ _ _ exiting a out h
  second-Inv exited a out h = Quiet-second _ _ _ exited a out h
  second-Inv taking_time a out h =
      Alarmed-second 6 6 taking_time a out (omega arith) (omega arith) h
  second-Inv (looping k) a out h = loop-second k a out h
  second-Inv killed a out h = h

  usr1-Inv :
      (p : Pc) (a : Option ℕ) (out : List Line)
      → Inv p m c a out
      → InvOf (step gets_usr1 (at_ p m c q a out))
  unfolding step
  usr1-Inv catching_usr1 a out h = refl
  usr1-Inv pausing a out (e, c0, off, o) = rw (c0, e) (refl, refl, off, o)
  usr1-Inv (looping k) a out h = h
  usr1-Inv catching_alrm a out (e, c0, off, o) = rw c0 (e, refl, off, o)
  usr1-Inv starting a out (e, c0, off, o) = rw c0 (e, refl, off, o)
  usr1-Inv saving a out (e, c0, off, o) = rw c0 (e, refl, off, o)
  usr1-Inv enabling a out (e, c0, off, o) = rw c0 (e, refl, off, o)
  usr1-Inv ending a out (e, c0, off, o) = rw c0 (e, refl, off, o)
  usr1-Inv exiting a out (e, c0, off, o) = rw c0 (e, refl, off, o)
  usr1-Inv entered a out h = h
  usr1-Inv setting_alarm a out h = h
  usr1-Inv taking_time a out h = h
  usr1-Inv finishing a out h = h
  usr1-Inv disabling a out h = h
  usr1-Inv jumping a out h = h
  usr1-Inv exited a out h = h
  usr1-Inv killed a out h = h

jumper-Inv : (past : List Event) → InvOf (after step start past)
jumper-Inv past = after-Inv step start (λ _ s. InvOf s) (refl, refl, refl, refl) keeps past
  where
    keeps : (e : Event) (past : List Event) (s : Jumper) → InvOf s → InvOf (step e s)
    keeps goes past s h = goes-Inv s.mask s.canjump s.pending s.pc s.alarm s.out h
    keeps second past s h = second-Inv s.mask s.canjump s.pending s.pc s.alarm s.out h
    keeps gets_usr1 past s h = usr1-Inv s.mask s.canjump s.pending s.pc s.alarm s.out h

-- Whenever main exits, it has printed five masks: none blocked, SIGUSR1 in its handler, both signals in
-- the handler of SIGALRM, SIGUSR1 again, and none behind the jump. SIGUSR1 may have come at any time and
-- any number of times.
pub main-printed :
    (past : List Event)
    → (after step start past).pc ≡ exited
    → ((after step start past).out ≡ lines5) × ((after step start past).mask ≡ none_blocked)
main-printed past e =
    let s = after step start past in
    let (mask, c, off, out) =
      subst (λ p. Inv p s.mask s.canjump s.alarm s.out) e (jumper-Inv past) in
    (out, mask)
