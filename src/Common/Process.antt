-- ===== src/Common/Process.antt =====
-- A process as a computation over the part of the world that it changes: it goes on with a value,
-- or it ends with an exit status. `err_sys`, `err_quit` and `err_exit` end a process with status 1.
use Prim.Native.Nat.{ℕ}

pub data Result (A : Type 0) : Type 0 where
  ok : A → Result A
  exited : ℕ → Result A

abbrev pub Process : Type 0 → Type 0 → Type 0
Process S A = S → Result A × S

module _ {S A : Type 0} where
  abbrev pub pure : A → Process S A
  pure a s = (ok a, s)

  abbrev pub exit : ℕ → Process S A
  exit n s = (exited n, s)

  -- Ends with status 1, after a message on the standard error that is left out.
  abbrev pub err_sys : Process S A
  err_sys = exit 1

module _ {S A B : Type 0} where
  abbrev pub and_then : (A → Process S B) → Result A → Process S B
  and_then f (ok a) s = f a s
  and_then f (exited n) s = (exited n, s)

  infixl 5 ◌>>=◌ ◌>>◌
  abbrev pub ◌>>=◌ : Process S A → (A → Process S B) → Process S B
  ◌>>=◌ m f s = let (r, s') = m s in and_then f r s'

  abbrev pub ◌>>◌ : Process S A → Process S B → Process S B
  m >> n = m >>= λ _. n
