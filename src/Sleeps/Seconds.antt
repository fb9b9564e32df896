-- ===== src/Sleeps/Seconds.antt =====
-- Seconds that pass between two steps of a sleeping process of chapter_10/10.10.c and 10.10.2.c
use apue_note.Common.{
  ℕ, zero, suc, ◌+◌, ◌-◌, ◌<◌, ◌≡◌, refl, ◌∙◌, false, none, some, List, [], ◌∷◌, ◌==◌, arith,
}
use apue_note.Common.Runs.{after}
use apue_note.Sleeps.{Sleeper, Event, second, tick}

abbrev pub seconds_of : ℕ → List Event
seconds_of zero = []
seconds_of (suc n) = second ∷ seconds_of n

tick-last :
    (alrm : Sleeper → Sleeper) (s : Sleeper) (j : ℕ)
    → j ≡ 1
    → tick alrm (some j) s ≡ alrm (record s { alarm = none; slept = s.slept + 1 })
tick-last alrm s j e = rw e refl

tick-counts :
    (alrm : Sleeper → Sleeper) (s : Sleeper) (j : ℕ)
    → 1 < j
    → tick alrm (some j) s ≡ record s { alarm = some (j - 1); slept = s.slept + 1 }
tick-counts alrm s j lt = let e : (j == 1) ≡ false = ground arith in rw e refl

module _ (step : Event → Sleeper → Sleeper) (alrm : Sleeper → Sleeper)
    (passes : (s : Sleeper) → step second s ≡ tick alrm s.alarm s) where
  pub after-quiet : (s : Sleeper) → s.alarm ≡ none → (j : ℕ) → after step s (seconds_of j) ≡ s
  after-quiet s e zero = refl
  after-quiet s e (suc j) = rw (after-quiet s e j) (rw (passes s) (rw e refl))

  after-counts :
      (s : Sleeper) (k j : ℕ)
      → j < k
      → after step (record s { alarm = some k }) (seconds_of j)
        ≡ record s { alarm = some (k - j); slept = s.slept + j }
  after-counts s k zero lt =
      let a : k - 0 ≡ k = omega arith in
      let b : s.slept + 0 ≡ s.slept = omega arith in rw (a, b) refl
  after-counts s k (suc j) lt =
      let t = record s { alarm = some (k - j); slept = s.slept + j } in
      let a : k - j - 1 ≡ k - suc j = omega arith in
      let b : s.slept + j + 1 ≡ s.slept + suc j = omega arith in
      rw (after-counts s k j (omega arith))
        (passes t ∙ tick-counts alrm t (k - j) (omega arith) ∙ (rw (a, b) refl))

  pub after-rings :
      (s : Sleeper) (k : ℕ)
      → after step (record s { alarm = some (suc k) }) (seconds_of (suc k))
        ≡ alrm (record s { alarm = none; slept = s.slept + suc k })
  after-rings s k =
      let t = record s { alarm = some (suc k - k); slept = s.slept + k } in
      let b : s.slept + k + 1 ≡ s.slept + suc k = omega arith in
      rw (after-counts s (suc k) k (omega arith))
        (passes t ∙ tick-last alrm t (suc k - k) (omega arith) ∙ (rw b refl))

  pub after-split :
      (s : Sleeper) (i j : ℕ)
      → after step s (seconds_of (i + j)) ≡ after step (after step s (seconds_of j)) (seconds_of i)
  after-split s zero j = let e : 0 + j ≡ j = omega arith in rw e refl
  after-split s (suc i) j =
      let e : suc i + j ≡ suc (i + j) = omega arith in rw (e, after-split s i j) refl
