-- ===== src/Lines/Commands.antt =====
-- The shells of chapter_01/1.6.3.c and 1.9.c: a command for each line
use apue_note.Common.{
  ℕ, zero, suc, ◌+◌, ◌-◌, ◌≤◌, ◌<◌, ◌≡◌, refl, sym, ap, ◌∙◌, Bool, true, Option, none, some, List,
  [], ◌∷◌, ◌++◌, ◌==◌, if◌then◌else◌, length, length-append, append-nil, append-snoc, arith,
}
use apue_note.Lines.{fgets, c_string}
use apue_note.Lines.Pieces.{Free, piece-line, c_string-Free}

-- What a shell has done: the commands that its children have tried to execute, each waited for before
-- the next, and its exit status. A child whose execlp fails ends with 127.
pub record Shell : Type 0 where
  pub status : ℕ
  pub commands : List (List ℕ)

-- The newline at the end of buf is overwritten by a NUL.
unfoldable pub chomp : List ℕ → List ℕ
chomp [] = []
chomp (c ∷ []) = if c == b'\n' then [] else c ∷ []
chomp (c ∷ d ∷ cs) = c ∷ chomp (d ∷ cs)

abbrev next_command :
    (goes_on : List ℕ → List ℕ → Shell) (at_end : Shell) → Option (List ℕ × List ℕ) → Shell
next_command goes_on at_end none = at_end
next_command goes_on at_end (some (line, rest)) = goes_on line rest

-- 1.6.3.c and the loop of 1.9.c; fork and waitpid answer by the number of the command.
unfoldable pub shell :
    (maxline : ℕ) (fork_works waitpid_works : ℕ → Bool) (fuel : ℕ)
    → List ℕ
    → (k : ℕ) → (commands : List (List ℕ)) → Shell
shell maxline fork_works waitpid_works zero input k commands = record {
  status = 0;
  commands = commands;
}
shell maxline fork_works waitpid_works (suc fuel) input k commands =
    next_command
      (λ line rest.
        let executed = commands ++ (chomp (c_string line) ∷ []) in
        let later = shell maxline fork_works waitpid_works fuel rest (k + 1) executed in
        if fork_works k
        then (if waitpid_works k then later else record { status = 1; commands = executed })
        else record { status = 1; commands = commands })
      (record { status = 0; commands = commands }) (fgets maxline input)

-- 1.9.c catches SIGINT first.
unfoldable pub shell_catching :
    (signal_works : Bool) (maxline : ℕ) (fork_works waitpid_works : ℕ → Bool) → List ℕ → Shell
unfolding shell
shell_catching signal_works maxline fork_works waitpid_works input =
    if signal_works
    then shell maxline fork_works waitpid_works (length input) input 0 []
    else record { status = 1; commands = [] }

abbrev pub unlines : List (List ℕ) → List ℕ
unlines [] = []
unlines (l ∷ ls) = l ++ (b'\n' ∷ unlines ls)

-- Lines without newlines and NULs that fit the buffer
abbrev pub Fit : (maxline : ℕ) → List (List ℕ) → Type 0
Fit maxline [] = ◌≡◌ {A = ℕ} 0 0
Fit maxline (l ∷ ls) = Free b'\n' l × Free 0 l × (length l + 1 < maxline) × Fit maxline ls

chomp-line : (l : List ℕ) → chomp (l ++ (b'\n' ∷ [])) ≡ l
unfolding chomp
chomp-line [] = refl
chomp-line (c ∷ []) = refl
chomp-line (c ∷ d ∷ l) = ap (c ∷◌) (chomp-line (d ∷ l))

Free-snoc : (l : List ℕ) → Free 0 l → Free 0 (l ++ (b'\n' ∷ []))
Free-snoc [] free = (omega arith, refl)
Free-snoc (c ∷ l) (other, free) = (other, Free-snoc l free)

fgets-line :
    (maxline : ℕ) (l rest : List ℕ)
    → Free b'\n' l
    → length l + 1 < maxline
    → fgets maxline (l ++ (b'\n' ∷ rest)) ≡ some (l ++ (b'\n' ∷ []), rest)
unfolding fgets
fgets-line maxline [] rest free lt = ap some (piece-line [] rest (maxline - 1) free (omega arith))
fgets-line maxline (c ∷ l) rest free lt =
    ap some (piece-line (c ∷ l) rest (maxline - 1) free (omega arith))

fgets-nil : (maxline : ℕ) → fgets maxline [] ≡ none
unfolding fgets
fgets-nil maxline = refl

shell_ends :
    (maxline fuel k : ℕ) (fork_works waitpid_works : ℕ → Bool) (commands : List (List ℕ))
    → shell maxline fork_works waitpid_works fuel [] k commands
      ≡ record { status = 0; commands = commands }
unfolding shell
shell_ends maxline zero k fork_works waitpid_works commands = refl
shell_ends maxline (suc fuel) k fork_works waitpid_works commands = rw (fgets-nil maxline) refl

shell_runs :
    (maxline fuel : ℕ) (ls : List (List ℕ)) (k : ℕ) (commands : List (List ℕ))
    → Fit maxline ls
    → length (unlines ls) ≤ fuel
    → shell maxline (λ _. true) (λ _. true) fuel (unlines ls) k commands
      ≡ record { status = 0; commands = commands ++ ls }
unfolding shell
shell_runs maxline fuel [] k commands fit le =
    shell_ends maxline fuel k (λ _. true) (λ _. true) commands
    ∙ ap (λ c. record { status = 0; commands = c }) (sym (append-nil commands))
shell_runs maxline zero (l ∷ ls) k commands fit le =
    absurd (omega (arith, length-append l (b'\n' ∷ unlines ls)))
shell_runs maxline (suc fuel) (l ∷ ls) k commands (no_newline, no_nul, lt, fit) le =
    rw
      (
        fgets-line maxline l (unlines ls) no_newline lt,
        c_string-Free (l ++ (b'\n' ∷ [])) (Free-snoc l no_nul),
        chomp-line l,
      )
      (shell_runs maxline fuel ls (k + 1) (commands ++ (l ∷ [])) fit
          (omega (arith, length-append l (b'\n' ∷ unlines ls)))
        ∙ ap (λ c. record { status = 0; commands = c }) (append-snoc commands l ls))

-- When its calls succeed, the shell executes each line of its input as a command, in order and without
-- its newline, and exits with status 0, if the lines have no NUL and fit its buffer.
pub shell-runs :
    (maxline : ℕ) (ls : List (List ℕ))
    → Fit maxline ls
    → shell_catching true maxline (λ _. true) (λ _. true) (unlines ls)
      ≡ record { status = 0; commands = ls }
unfolding shell_catching
shell-runs maxline ls fit = shell_runs maxline (length (unlines ls)) ls 0 [] fit (omega arith)
