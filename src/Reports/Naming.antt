-- ===== src/Reports/Naming.antt =====
-- The names that sig2str of chapter_10/p2.c gives
use apue_note.Common.{
  ℕ, ◌≡◌, ◌≢◌, ◌⊎◌, refl, inl, inr, Bool, Bool-cases, true, false, List, [], ◌∷◌, ◌==◌, ◌||◌, arith,
}
use apue_note.Reports.{
  Name, unknown, sigkill, sighup, sigint, sigquit, sigill, sigtrap, sigabrt, sigiot, sigbus, sigfpe,
  sigusr1, sigsegv, sigusr2, sigpipe, sigalrm, sigterm, sigstkflt, sigchld, sigcont, sigstop,
  sigtstp, sigttin, sigttou, sigurg, sigxcpu, sigxfsz, sigvtalrm, sigprof, sigwinch, sigio, sigpwr,
  sigsys, sigrtmin, table, s2s_all, sig2str,
}

-- The number that the system gives a name
abbrev pub number_of : ℕ → Name → ℕ
number_of rtmin unknown = 0
number_of rtmin sigkill = 9
number_of rtmin sighup = 1
number_of rtmin sigint = 2
number_of rtmin sigquit = 3
number_of rtmin sigill = 4
number_of rtmin sigtrap = 5
number_of rtmin sigabrt = 6
number_of rtmin sigiot = 6
number_of rtmin sigbus = 7
number_of rtmin sigfpe = 8
number_of rtmin sigusr1 = 10
number_of rtmin sigsegv = 11
number_of rtmin sigusr2 = 12
number_of rtmin sigpipe = 13
number_of rtmin sigalrm = 14
number_of rtmin sigterm = 15
number_of rtmin sigstkflt = 16
number_of rtmin sigchld = 17
number_of rtmin sigcont = 18
number_of rtmin sigstop = 19
number_of rtmin sigtstp = 20
number_of rtmin sigttin = 21
number_of rtmin sigttou = 22
number_of rtmin sigurg = 23
number_of rtmin sigxcpu = 24
number_of rtmin sigxfsz = 25
number_of rtmin sigvtalrm = 26
number_of rtmin sigprof = 27
number_of rtmin sigwinch = 28
number_of rtmin sigio = 29
number_of rtmin sigpwr = 30
number_of rtmin sigsys = 31
number_of rtmin sigrtmin = rtmin

-- Is the number in the lines?
abbrev pub known : ℕ → List (ℕ × Name) → Bool
known n [] = false
known n (line ∷ lines) = (n == line.0) || known n lines

abbrev AllRight : ℕ → List (ℕ × Name) → Type 0
AllRight rtmin [] = Unit {0}
AllRight rtmin (line ∷ lines) =
    (number_of rtmin line.1 ≡ line.0) × (line.1 ≢ unknown) × AllRight rtmin lines

-- A name is that of the number and not unknown.
abbrev pub Names : ℕ → ℕ → Name → Type 0
Names rtmin n name = (number_of rtmin name ≡ n) × (name ≢ unknown)

s2s_all-kept :
    (rtmin n : ℕ) (lines : List (ℕ × Name)) (str : Name)
    → AllRight rtmin lines
    → Names rtmin n str
    → Names rtmin n (s2s_all n lines str)
s2s_all-kept rtmin n [] str right h = h
s2s_all-kept rtmin n (line ∷ lines) str right h = elim (Bool-cases (n == line.0)) [
  | inl t ↦ rw t (s2s_all-kept rtmin n lines line.1 right.2 (ground arith, right.1))
  | inr f ↦ rw f (s2s_all-kept rtmin n lines str right.2 h)
]

s2s_all-Names :
    (rtmin n : ℕ) (lines : List (ℕ × Name)) (str : Name)
    → AllRight rtmin lines
    → ((known n lines ≡ true) × Names rtmin n (s2s_all n lines str))
      ⊎ ((known n lines ≡ false) × (s2s_all n lines str ≡ str))
s2s_all-Names rtmin n [] str right = inr (refl, refl)
s2s_all-Names rtmin n (line ∷ lines) str right = elim (Bool-cases (n == line.0)) [
  | inl t ↦ rw t (inl (refl, s2s_all-kept rtmin n lines line.1 right.2 (ground arith, right.1)))
  | inr f ↦ rw f (s2s_all-Names rtmin n lines str right.2)
]

-- sig2str gives a name of the signal with the number, if the number is in its table, and UNKNOWN exactly
-- if it is not.
pub sig2str-Names :
    (rtmin n : ℕ)
    → ((known n (table rtmin) ≡ true) × Names rtmin n (sig2str rtmin n))
      ⊎ ((known n (table rtmin) ≡ false) × (sig2str rtmin n ≡ unknown))
unfolding sig2str
sig2str-Names rtmin n = s2s_all-Names rtmin n (table rtmin) unknown (ground arith)
