-- ===== src/Reports.antt =====
-- The names of signals of chapter_10/p2.c and the report on a child of chapter_08/8.6.c, with the numbers
-- and the wait statuses of Linux.
mod Naming
mod Waiting
mod Tests
use apue_note.Common.{
  ℕ, zero, suc, ◌+◌, ◌*◌, ◌/◌, ◌%◌, ◌≡◌, Bool, true, false, ◌&&◌, not, Option, none, some, List, [],
  ◌∷◌, ◌++◌, ltb, ◌==◌, if◌then◌else◌,
}

pub data Name : Type 0 where
  unknown : Name
  sigkill : Name
  sighup : Name
  sigint : Name
  sigquit : Name
  sigill : Name
  sigtrap : Name
  sigabrt : Name
  sigiot : Name
  sigbus : Name
  sigfpe : Name
  sigusr1 : Name
  sigsegv : Name
  sigusr2 : Name
  sigpipe : Name
  sigalrm : Name
  sigterm : Name
  sigstkflt : Name
  sigchld : Name
  sigcont : Name
  sigstop : Name
  sigtstp : Name
  sigttin : Name
  sigttou : Name
  sigurg : Name
  sigxcpu : Name
  sigxfsz : Name
  sigvtalrm : Name
  sigprof : Name
  sigwinch : Name
  sigio : Name
  sigpwr : Name
  sigsys : Name
  sigrtmin : Name

-- The lines of sig2str, in their order; the number of SIGRTMIN is known at run time only.
abbrev pub table : ℕ → List (ℕ × Name)
table rtmin =
    (9, sigkill)
    ∷ (1, sighup)
    ∷ (2, sigint)
    ∷ (3, sigquit)
    ∷ (4, sigill)
    ∷ (5, sigtrap)
    ∷ (6, sigabrt)
    ∷ (6, sigiot)
    ∷ (7, sigbus)
    ∷ (8, sigfpe)
    ∷ (9, sigkill)
    ∷ (10, sigusr1)
    ∷ (11, sigsegv)
    ∷ (12, sigusr2)
    ∷ (13, sigpipe)
    ∷ (14, sigalrm)
    ∷ (15, sigterm)
    ∷ (16, sigstkflt)
    ∷ (17, sigchld)
    ∷ (18, sigcont)
    ∷ (19, sigstop)
    ∷ (20, sigtstp)
    ∷ (21, sigttin)
    ∷ (22, sigttou)
    ∷ (23, sigurg)
    ∷ (24, sigxcpu)
    ∷ (25, sigxfsz)
    ∷ (26, sigvtalrm)
    ∷ (27, sigprof)
    ∷ (28, sigwinch)
    ∷ (29, sigio)
    ∷ (30, sigpwr)
    ∷ (31, sigsys)
    ∷ (rtmin, sigrtmin)
    ∷ []

-- s2s: a match overwrites what is in str.
abbrev pub s2s : ℕ → ℕ × Name → Name → Name
s2s signo line str = if signo == line.0 then line.1 else str

abbrev pub s2s_all : ℕ → List (ℕ × Name) → Name → Name
s2s_all signo [] str = str
s2s_all signo (line ∷ lines) str = s2s_all signo lines (s2s signo line str)

unfoldable pub sig2str : (rtmin signo : ℕ) → Name
sig2str rtmin signo = s2s_all signo (table rtmin) unknown

-- The loop of main over the numbers that are read
unfoldable pub names : ℕ → List ℕ → List Name
names rtmin [] = []
names rtmin (n ∷ ns) = sig2str rtmin n ∷ names rtmin ns

-- What pr_exit prints
pub data Report : Type 0 where
  normal : ℕ → Report
  abnormal : ℕ → Bool → Report
  stopped : ℕ → Report
  silent : Report

abbrev pub wifexited : ℕ → Bool
wifexited status = status % 128 == 0

abbrev pub wifsignaled : ℕ → Bool
wifsignaled status = not (status % 128 == 0) && not (status % 128 == 127)

abbrev pub wifstopped : ℕ → Bool
wifstopped status = status % 256 == 127

unfoldable pub pr_exit : ℕ → Report
pr_exit status =
    if wifexited status
    then normal (status / 256 % 256)
    else (if wifsignaled status
        then abnormal (status % 128) (status / 128 % 2 == 1)
        else (if wifstopped status then stopped (status / 256 % 256) else silent))

-- A fork and the wait for it: the child's number and status, what wait returns, or a fork that fails
pub record Child : Type 0 where
  pub forks : Bool
  pub pid : ℕ
  pub waited : ℕ
  pub status : ℕ

-- The parent in main: its exit status and what it has printed
unfoldable pub run : List Child → List Report → ℕ × List Report
run [] out = (0, out)
run (c ∷ cs) out =
    let rest = run cs (out ++ pr_exit c.status ∷ []) in
    if not c.forks then (1, out) else (if not (c.waited == c.pid) then (1, out) else rest)

-- The statuses of the three children: exit(7); abort(), which may leave a core file; and a child that
-- goes on to wait, has no children and ends by err_sys.
abbrev pub aborted : Bool → ℕ
aborted core = 6 + (if core then 128 else 0)

unfoldable pub main : (p1 p2 p3 : ℕ) (core : Bool) → ℕ × List Report
main p1 p2 p3 core =
    run
      (record { forks = true; pid = p1; waited = p1; status = 7 * 256 }
        ∷ record { forks = true; pid = p2; waited = p2; status = aborted core }
        ∷ record { forks = true; pid = p3; waited = p3; status = 1 * 256 }
        ∷ [])
      []
