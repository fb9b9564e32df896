-- ===== src/Common/Runs.antt =====
-- Runs of a program that reacts to events: the state after a list of past events, the last one first.
use mathlib.Core.List.{List, [], ◌∷◌, ◌++◌}
use mathlib.Core.Path.{◌≡◌, refl}

module _ {E S : Type 0} (step : E → S → S) (start : S) where
  abbrev pub after : List E → S
  after [] = start
  after (e ∷ past) = step e (after past)

  -- What holds of the start and is kept by each event holds after any past.
  pub after-Inv :
      (P : List E → S → Type 0)
      → P [] start
      → ((e : E) (past : List E) (s : S) → P past s → P (e ∷ past) (step e s))
      → (past : List E) → P past (after past)
  after-Inv P base keep [] = base
  after-Inv P base keep (e ∷ past) = keep e past (after past) (after-Inv P base keep past)

module _ {E S : Type 0} (step : E → S → S) (start : S) where
  pub after-append :
      (es past : List E) → after step start (es ++ past) ≡ after step (after step start past) es
  after-append [] past = refl
  after-append (e ∷ es) past = rw (after-append es past)
