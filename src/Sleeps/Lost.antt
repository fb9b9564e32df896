-- ===== src/Sleeps/Lost.antt =====
-- The lost alarm of sleep1, chapter_10/10.10.c
use mathlib.Core.Path.{subst}
use apue_note.Common.{
  ℕ, zero, suc, ◌+◌, ◌<◌, ◌≡◌, refl, sym, ap, ◌∙◌, ◌⊎◌, inl, inr, Bool, false, Option, none, some,
  List, [], ◌∷◌, ◌++◌, ◌==◌, arith,
}
use apue_note.Common.Runs.{after, after-Inv, after-append}
use apue_note.Sleeps.Seconds.{seconds_of, after-rings}
use apue_note.Sleeps.{
  Pc, pausing, paused, killed, Sleeper, Event, goes, second, gets_int, start, alrm1, sleep1,
}

-- Asleep for good: in pause with no alarm to come, or ended by a signal there.
abbrev pub Lost : Sleeper → Type 0
Lost s = (s.alarm ≡ none) × ((s.pc ≡ paused) ⊎ (s.pc ≡ killed))

module _ (n sl : ℕ) (b c : Bool) where
  Lost-fields :
      (e : Event) (p : Pc) (a : Option ℕ)
      → a ≡ none
      → (p ≡ paused) ⊎ (p ≡ killed)
      → Lost (sleep1 n e (record { pc = p; alarm = a; slept = sl; in_int = b; cut_short = c }))
  unfolding sleep1
  Lost-fields goes p a quiet (inl e) = rw e (quiet, inl refl)
  Lost-fields goes p a quiet (inr e) = rw e (quiet, inr refl)
  Lost-fields second p a quiet at = rw quiet (refl, at)
  Lost-fields gets_int p a quiet at = (refl, inr refl)

Lost-after : (n : ℕ) (s : Sleeper) → Lost s → (es : List Event) → Lost (after (sleep1 n) s es)
Lost-after n s lost es =
    after-Inv (sleep1 n) s (λ _ t. Lost t) lost
      (λ e _ t (quiet, at). Lost-fields n t.slept t.in_int t.cut_short e t.pc t.alarm quiet at) es

Lost-paused : (n : ℕ) → Lost (sleep1 n goes (record start { pc = pausing; slept = n }))
unfolding sleep1
Lost-paused n = (refl, inl refl)

armed :
    (n : ℕ)
    → 0 < n
    → after (sleep1 n) start (goes ∷ goes ∷ []) ≡ record start { pc = pausing; alarm = some n }
unfolding sleep1
armed n pos = let e : (n == 0) ≡ false = ground arith in rw e refl

rung :
    (n : ℕ)
    → 0 < n
    → after (sleep1 n) (record start { pc = pausing; alarm = some n }) (seconds_of n)
      ≡ record start { pc = pausing; slept = n }
unfolding sleep1
rung zero pos = absurd (omega arith)
rung (suc n) pos =
    let e : 0 + suc n ≡ suc n = omega arith in
    after-rings (sleep1 (suc n)) alrm1 (λ _. refl) (record start { pc = pausing }) n ∙ (rw e refl)

-- A call of sleep1 whose alarm rings between alarm and pause never returns: whatever comes behind it,
-- the process stays in pause with no alarm, or a signal ends it.
pub sleep1-loses :
    (n : ℕ) (es : List Event)
    → 0 < n
    → Lost (after (sleep1 n) start (es ++ (goes ∷ (seconds_of n ++ (goes ∷ goes ∷ [])))))
sleep1-loses n es pos =
    let step = sleep1 n in
    let past = seconds_of n ++ (goes ∷ goes ∷ []) in
    let there : after step start past ≡ record start { pc = pausing; slept = n } =
      after-append step start (seconds_of n) (goes ∷ goes ∷ [])
      ∙ ap (λ s. after step s (seconds_of n)) (armed n pos)
      ∙ rung n pos in
    let lost : Lost (step goes (record start { pc = pausing; slept = n })) = Lost-paused n in
    rw (after-append step start es (goes ∷ past)) (
      Lost-after n (step goes (after step start past))
        (subst (λ s. Lost (step goes s)) (sym there) lost) es)
