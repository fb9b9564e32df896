-- ===== src/Lines/Tests.antt =====
-- Runs of the copies and the shell
use apue_note.Common.{ℕ, ◌≡◌, refl, Bool, true, false, List, [], ◌∷◌, ◌++◌, ◌==◌, not, arith}
use apue_note.Lines.{piece, fgets, c_string, fgets_loop, copy_fgets, prompt, prompter}
use apue_note.Lines.Copied.{Copied}
use apue_note.Lines.Commands.{unlines, shell, chomp, shell_catching, shell-runs}

-- "a\nbc" by pieces of three bytes, when the second write fails
abbrev input : List ℕ
input = b'a' ∷ b'\n' ∷ b'b' ∷ b'c' ∷ []

abbrev works : ℕ → Bool
works k = not (k == 1)

shell-runs_example :
    shell_catching true 4 (λ _. true) (λ _. true) (unlines ((b'l' ∷ b's' ∷ []) ∷ (b'w' ∷ []) ∷ []))
    ≡ record { status = 0; commands = (b'l' ∷ b's' ∷ []) ∷ (b'w' ∷ []) ∷ [] }
shell-runs_example = shell-runs 4 ((b'l' ∷ b's' ∷ []) ∷ (b'w' ∷ []) ∷ []) (
  (omega arith, (omega arith, refl)),
  (omega arith, (omega arith, refl)),
  omega arith,
  ((omega arith, refl), (omega arith, refl), omega arith, refl),
)

-- A line that does not fit is two commands.
long_line_splits :
    (shell_catching true 4
      (λ _. true)
      (λ _. true)
      (unlines ((b'd' ∷ b'a' ∷ b't' ∷ b'e' ∷ []) ∷ []))).commands
    ≡ (b'd' ∷ b'a' ∷ b't' ∷ []) ∷ (b'e' ∷ []) ∷ []
unfolding shell_catching shell fgets piece c_string chomp
long_line_splits = refl

-- A NUL and what stands behind it in its line are lost.
nul_loses : (copy_fgets 8 (λ _. true) false (b'a' ∷ 0 ∷ b'b' ∷ b'\n' ∷ [])).out ≡ b'a' ∷ []
unfolding copy_fgets fgets_loop fgets piece c_string
nul_loses = refl

prompted :
    (prompter 8 true (λ _. true) true (b'a' ∷ b'\n' ∷ [])).out
    ≡ prompt ++ (b'a' ∷ b'\n' ∷ []) ++ prompt ++ (b'\n' ∷ [])
unfolding prompter fgets_loop fgets piece c_string
prompted = refl
