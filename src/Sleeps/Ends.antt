-- ===== src/Sleeps/Ends.antt =====
-- That sleep2 returns, chapter_10/10.10.2.c and 10.10.3.c
use apue_note.Common.{
  ℕ, zero, suc, ◌+◌, ◌<◌, ◌≡◌, refl, sym, ap, ◌∙◌, ◌⊎◌, inl, inr, Bool, true, false, Option, none,
  some, List, [], ◌∷◌, ◌++◌, ◌==◌, arith,
}
use apue_note.Common.Runs.{after, after-append}
use apue_note.Sleeps.Seconds.{seconds_of, after-rings, after-quiet, after-split}
use apue_note.Sleeps.Wakes.{Inv, handler-Inv, sleep2-Inv, sleep2-value}
use apue_note.Sleeps.{
  Pc, installing, arming, pausing, paused, cancelling, killed, returned, Sleeper, Event, goes,
  start, alrm2, after_handler, sleep2,
}

abbrev at_ : ℕ → Bool → Pc → Option ℕ → Sleeper
at_ slept cut p a = record { pc = p; alarm = a; slept = slept; in_int = false; cut_short = cut }

-- What the process comes to by its own steps: a pause with the alarm set, or the return.
abbrev Settled : ℕ → Sleeper → Type 0
Settled n s =
    ((slept : ℕ) × (cut : Bool) × (k : ℕ) × (s ≡ at_ slept cut paused (some (suc k)))
      × (slept + suc k ≡ n))
    ⊎ ((slept : ℕ) × (cut : Bool) × (m : ℕ) × (s ≡ at_ slept cut (returned m) none))

abbrev pub steps : ℕ → List Event
steps zero = []
steps (suc n) = goes ∷ steps n

armed :
    (n slept : ℕ) (cut : Bool)
    → 0 < n
    → sleep2 n goes (at_ slept cut arming none) ≡ at_ 0 cut pausing (some n)
unfolding sleep2
armed n slept cut pos = let e : (n == 0) ≡ false = ground arith in rw e refl

settles_paused :
    (n slept : ℕ) (cut : Bool) (k : ℕ)
    → 0 < k
    → slept + k ≡ n
    → Settled n (at_ slept cut paused (some k))
settles_paused n slept cut zero pos sum = absurd (omega arith)
settles_paused n slept cut (suc k) pos sum = inl (slept, cut, k, refl, sum)

settles_pausing :
    (n slept : ℕ) (cut : Bool) (a : Option ℕ)
    → Inv n pausing a slept
    → Settled n (at_ slept cut paused a)
settles_pausing n slept cut none h = absurd h
settles_pausing n slept cut (some k) (pos, sum) = settles_paused n slept cut k pos sum

settles :
    (n slept : ℕ) (cut : Bool) (p : Pc) (a : Option ℕ)
    → 0 < n
    → Inv n p a slept
    → Settled n (after (sleep2 n) (at_ slept cut p a) (steps 3))
unfolding sleep2
settles n slept cut installing none pos h =
    let e : (n == 0) ≡ false = ground arith in rw e (settles_paused n 0 cut n pos (omega arith))
settles n slept cut installing (some k) pos h = absurd h
settles n slept cut arming none pos h =
    let e : (n == 0) ≡ false = ground arith in rw e (settles_paused n 0 cut n pos (omega arith))
settles n slept cut arming (some k) pos h = absurd h
settles n slept cut pausing a pos h = settles_pausing n slept cut a h
settles n slept cut paused a pos h = settles_pausing n slept cut a h
settles n slept cut cancelling a pos h = inr (slept, cut, _, refl)
settles n slept cut killed a pos h = absurd h
settles n slept cut (returned m) none pos h = inr (slept, cut, m, refl)
settles n slept cut (returned m) (some k) pos h = absurd (h.0)

Settled-goes : (n : ℕ) (s : Sleeper) → Settled n s → Settled n (sleep2 n goes s)
unfolding sleep2
Settled-goes n s (inl (slept, cut, k, e, sum)) = rw e (inl (slept, cut, k, refl, sum))
Settled-goes n s (inr (slept, cut, m, e)) = rw e (inr (slept, cut, m, refl))

settles_int :
    (n slept : ℕ) (cut : Bool) (p : Pc) (a : Option ℕ) (b : Bool)
    → 0 < n
    → Inv n p a slept
    → Settled n (
        after
          (sleep2 n)
          (record { pc = p; alarm = a; slept = slept; in_int = b; cut_short = cut })
          (steps 4))
unfolding sleep2
settles_int n slept cut p a true pos h =
    settles n slept cut (after_handler p) a pos (handler-Inv n p a slept h)
settles_int n slept cut p a false pos h =
    Settled-goes n (after (sleep2 n) (at_ slept cut p a) (steps 3)) (settles n slept cut p a pos h)

rings :
    (n slept : ℕ) (cut : Bool) (k : ℕ)
    → slept + suc k ≡ n
    → after (sleep2 n) (at_ slept cut paused (some (suc k))) (seconds_of n)
      ≡ at_ n false cancelling none
unfolding sleep2
rings n slept cut k sum =
    let step = sleep2 n in
    let s = at_ slept cut paused (some (suc k)) in
    let done = at_ n false cancelling none in
    ap (λ m. after step s (seconds_of m)) (sym sum)
    ∙ after-split step alrm2 (λ _. refl) s slept (suc k)
    ∙ ap (λ t. after step t (seconds_of slept))
        (after-rings step alrm2 (λ _. refl) s k ∙ (rw sum refl))
    ∙ after-quiet step alrm2 (λ _. refl) done refl slept

Settled-returns :
    (n : ℕ) (s : Sleeper)
    → Settled n s
    → (m : ℕ) × ((sleep2 n goes (after (sleep2 n) s (seconds_of n))).pc ≡ returned m)
unfolding sleep2
Settled-returns n s (inl (slept, cut, k, e, sum)) = (0, rw (e, rings n slept cut k sum) refl)
Settled-returns n s (inr (slept, cut, m, e)) = (
  m,
  rw (e, after-quiet (sleep2 n) alrm2 (λ _. refl) (at_ slept cut (returned m) none) refl n) refl,
)

-- sleep2 returns whatever has come before, SIGINT and its handler included: after four steps of the
-- process, as many seconds as it was asked to sleep and one more step. What it returns is the seconds
-- asked for less those that passed while its alarm was set.
pub sleep2-returns :
    (n : ℕ) (past : List Event)
    → 0 < n
    → let s = after (sleep2 n) start (goes ∷ (seconds_of n ++ (steps 4 ++ past))) in
      (m : ℕ) × (s.pc ≡ returned m) × (s.slept + m ≡ n)
sleep2-returns n past pos =
    let step = sleep2 n in
    let s = after step start past in
    let there : after step start (seconds_of n ++ (steps 4 ++ past))
        ≡ after step (after step s (steps 4)) (seconds_of n) =
      after-append step start (seconds_of n) (steps 4 ++ past)
      ∙ ap (λ t. after step t (seconds_of n)) (after-append step start (steps 4) past) in
    let (m, e) =
      Settled-returns n (after step s (steps 4))
        (settles_int n s.slept s.cut_short s.pc s.alarm s.in_int pos (sleep2-Inv n past pos)) in
    let at_m = ap (λ t. (step goes t).pc) there ∙ e in
    (m, at_m, sleep2-value n m (goes ∷ (seconds_of n ++ (steps 4 ++ past))) pos at_m)
