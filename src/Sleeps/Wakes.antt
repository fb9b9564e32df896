-- ===== src/Sleeps/Wakes.antt =====
-- What sleep2 of chapter_10/10.10.2.c and 10.10.3.c guarantees
use mathlib.Core.Path.{subst}
use apue_note.Common.{
  ℕ, ◌+◌, ◌-◌, ◌<◌, ◌≡◌, refl, inl, inr, Bool-cases, Bool, true, false, Option, none, some, List,
  ◌==◌, arith,
}
use apue_note.Common.Runs.{after, after-Inv}
use apue_note.Sleeps.{
  Pc, installing, arming, pausing, paused, cancelling, killed, returned, Sleeper, Event, goes,
  second, gets_int, start, sleep2, after_handler,
}

-- The alarm is set, and the seconds so far and those left are the seconds asked for.
abbrev Ticking : ℕ → Option ℕ → ℕ → Type 0
Ticking n none slept = ⊥
Ticking n (some k) slept = (0 < k) × (slept + k ≡ n)

abbrev Spent : ℕ → Option ℕ → ℕ → Type 0
Spent n none slept = slept ≡ n
Spent n (some k) slept = (0 < k) × (slept + k ≡ n)

abbrev Off : Option ℕ → Type 0
Off none = ◌≡◌ {A = ℕ} 0 0
Off (some k) = ⊥

abbrev pub Inv : ℕ → Pc → Option ℕ → ℕ → Type 0
Inv n installing a slept = Off a
Inv n arming a slept = Off a
Inv n pausing a slept = Ticking n a slept
Inv n paused a slept = Ticking n a slept
Inv n cancelling a slept = Spent n a slept
Inv n (returned m) a slept = Off a × (slept + m ≡ n)
Inv n killed a slept = ⊥

Ticking-Spent : (n : ℕ) (a : Option ℕ) (slept : ℕ) → Ticking n a slept → Spent n a slept
Ticking-Spent n none slept h = absurd h
Ticking-Spent n (some k) slept h = h

-- A handler that returns
pub handler-Inv :
    (n : ℕ) (p : Pc) (a : Option ℕ) (slept : ℕ) → Inv n p a slept → Inv n (after_handler p) a slept
handler-Inv n installing a slept h = h
handler-Inv n arming a slept h = h
handler-Inv n pausing a slept h = h
handler-Inv n paused a slept h = Ticking-Spent n a slept h
handler-Inv n cancelling a slept h = h
handler-Inv n killed a slept h = h
handler-Inv n (returned m) a slept h = h

abbrev pub InvOf : ℕ → Sleeper → Type 0
InvOf n s = Inv n s.pc s.alarm s.slept

module _ (n slept : ℕ) (cut : Bool) where
  abbrev at_ : Pc → Option ℕ → Bool → Sleeper
  at_ p a b = record { pc = p; alarm = a; slept = slept; in_int = b; cut_short = cut }

  goes-Inv :
      (p : Pc) (a : Option ℕ) → 0 < n → Inv n p a slept → InvOf n (sleep2 n goes (at_ p a false))
  unfolding sleep2
  goes-Inv installing a pos h = h
  goes-Inv arming a pos h = let e : (n == 0) ≡ false = ground arith in rw e (pos, omega arith)
  goes-Inv pausing a pos h = h
  goes-Inv paused a pos h = h
  goes-Inv cancelling none pos h = (refl, omega (arith, h))
  goes-Inv cancelling (some k) pos h = (refl, h.1)
  goes-Inv killed a pos h = h
  goes-Inv (returned m) a pos h = h

  -- The last second before the alarm
  rung-Inv : (p : Pc) (k : ℕ) → k ≡ 1 → Inv n p (some k) slept → slept + 1 ≡ n
  rung-Inv installing k e h = absurd h
  rung-Inv arming k e h = absurd h
  rung-Inv pausing k e h = omega (arith, h.1)
  rung-Inv paused k e h = omega (arith, h.1)
  rung-Inv cancelling k e h = omega (arith, h.1)
  rung-Inv killed k e h = absurd h
  rung-Inv (returned m) k e h = absurd (h.0)

  waits-Inv : (p : Pc) (k : ℕ) → 1 < k → Inv n p (some k) slept → Inv n p (some (k - 1)) (slept + 1)
  waits-Inv installing k lt h = h
  waits-Inv arming k lt h = h
  waits-Inv pausing k lt h = (omega arith, omega (arith, h.1))
  waits-Inv paused k lt h = (omega arith, omega (arith, h.1))
  waits-Inv cancelling k lt h = (omega arith, omega (arith, h.1))
  waits-Inv killed k lt h = h
  waits-Inv (returned m) k lt h = absurd (h.0)

  positive : (p : Pc) (k : ℕ) → Inv n p (some k) slept → 0 < k
  positive installing k h = absurd h
  positive arming k h = absurd h
  positive pausing k h = h.0
  positive paused k h = h.0
  positive cancelling k h = h.0
  positive killed k h = absurd h
  positive (returned m) k h = absurd (h.0)

  second-Inv :
      (p : Pc) (a : Option ℕ) (b : Bool) → Inv n p a slept → InvOf n (sleep2 n second (at_ p a b))
  unfolding sleep2
  second-Inv p none b h = h
  second-Inv p (some k) b h = elim (Bool-cases (k == 1)) [
    | inl e ↦ rw e (rung-Inv p k (ground arith) h)
    | inr e ↦ rw e (let pos = positive p k h in waits-Inv p k (ground arith) h)
  ]

  step-Inv :
      (e : Event) (p : Pc) (a : Option ℕ) (b : Bool)
      → 0 < n
      → Inv n p a slept
      → InvOf n (sleep2 n e (at_ p a b))
  unfolding sleep2
  step-Inv goes p a true pos h = handler-Inv n p a slept h
  step-Inv goes p a false pos h = goes-Inv p a pos h
  step-Inv second p a b pos h = second-Inv p a b h
  step-Inv gets_int p a b pos h = h

pub sleep2-Inv : (n : ℕ) (past : List Event) → 0 < n → InvOf n (after (sleep2 n) start past)
sleep2-Inv n past pos =
    after-Inv (sleep2 n) start (λ _ s. InvOf n s) refl
      (λ e _ s h. step-Inv n s.slept s.cut_short e s.pc s.alarm s.in_int pos h) past

Paused-Ticking :
    (n : ℕ) (p : Pc) (a : Option ℕ) (slept : ℕ)
    → Inv n p a slept
    → p ≡ paused
    → (k : ℕ) × (a ≡ some k) × (0 < k) × (slept + k ≡ n)
Paused-Ticking n p none slept h e = absurd (subst (λ q. Inv n q none slept) e h)
Paused-Ticking n p (some k) slept h e =
    let (pos, sum) = subst (λ q. Inv n q (some k) slept) e h in (k, refl, pos, sum)

Returned-Off :
    (n : ℕ) (p : Pc) (a : Option ℕ) (slept m : ℕ) → Inv n p a slept → p ≡ returned m → slept + m ≡ n
Returned-Off n p a slept m h e = (subst (λ q. Inv n q a slept) e h).1

-- sleep2 never pauses without an alarm: in every reachable state in pause the alarm is set, and the
-- seconds that it has run and those that it has left are the seconds asked for, at least one.
pub sleep2-Alarmed :
    (n : ℕ) (past : List Event)
    → 0 < n
    → (after (sleep2 n) start past).pc ≡ paused
    → (k : ℕ) × ((after (sleep2 n) start past).alarm ≡ some k)
      × (0 < k)
      × ((after (sleep2 n) start past).slept + k ≡ n)
sleep2-Alarmed n past pos e =
    let s = after (sleep2 n) start past in
    Paused-Ticking n s.pc s.alarm s.slept (sleep2-Inv n past pos) e

-- What sleep2 returns is the seconds asked for less those that passed while the alarm was set.
pub sleep2-value :
    (n m : ℕ) (past : List Event)
    → 0 < n
    → (after (sleep2 n) start past).pc ≡ returned m
    → (after (sleep2 n) start past).slept + m ≡ n
sleep2-value n m past pos e =
    let s = after (sleep2 n) start past in
    Returned-Off n s.pc s.alarm s.slept m (sleep2-Inv n past pos) e
