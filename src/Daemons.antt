-- ===== src/Daemons.antt =====
-- The daemons of chapter_13: 13.6.c, whose thread waits for signals, and 13.6.2.c, which catches them.
-- daemonize and already_running are code that the repository does not have: the second answers whether
-- another daemon runs. The signals are SIGHUP and SIGTERM of Linux.
mod Names
mod Signals
mod Tests
use apue_note.Common.{
  ℕ, ◌≡◌, Bool, true, false, Option, none, some, List, [], ◌∷◌, ◌++◌, drop, ◌==◌, if◌then◌else◌,
}
use apue_note.Common.Process.{Process, ok, exited, pure, exit, err_sys, ◌>>◌, ◌>>=◌}

-- What becomes known of the daemon: its name, what it writes to the log, and that it reads its
-- configuration again.
pub data Log : Type 0 where
  daemonized : List ℕ → Log
  already_runs re_reading got_sigterm sigwait_failed cant_catch_sigterm cant_catch_sighup : Log
  unexpected : ℕ → Log

abbrev pub sighup : ℕ
sighup = 1

abbrev pub sigterm : ℕ
sigterm = 15

abbrev pub Daemon : Type 0
Daemon = Process (List Log) (List ℕ)

-- syslog, and daemonize with the name of the command
abbrev pub syslog : Log → Daemon
syslog l = λ log. pure [] (log ++ (l ∷ []))

abbrev pub goes_on : Daemon
goes_on = pure []

-- err_quit, err_exit and exit(1)
abbrev pub ends_badly : Daemon
ends_badly = err_sys

abbrev pub last_of : ℕ → List ℕ → ℕ → Option (List ℕ) → Option (List ℕ)
last_of b bs c (some t) = some t
last_of b bs c none = if b == c then some (b ∷ bs) else none

unfoldable pub strrchr : List ℕ → ℕ → Option (List ℕ)
strrchr [] c = none
strrchr (b ∷ bs) c = last_of b bs c (strrchr bs c)

abbrev pub behind : List ℕ → Option (List ℕ) → List ℕ
behind argv0 none = argv0
behind argv0 (some t) = drop 1 t

-- cmd, the name of the command without its directories
unfoldable pub cmd : List ℕ → List ℕ
unfolding strrchr
cmd argv0 = behind argv0 (strrchr argv0 b'/')

-- The start that both programs have
unfoldable pub starts : (argv0 : List ℕ) → (already_running : Bool) → Daemon
starts argv0 already_running =
    syslog (daemonized (cmd argv0))
    >> (if already_running then syslog already_runs >> ends_badly else goes_on)

-- 13.6.c: the thread, with the answers of sigwait as long as they come
unfoldable pub thr_fn : List (Option ℕ) → Daemon
thr_fn [] = goes_on
thr_fn (none ∷ answers) = syslog sigwait_failed >> ends_badly
thr_fn (some signo ∷ answers) =
    let rest = thr_fn answers in
    if signo == sighup
    then syslog re_reading >> rest
    else if signo == sigterm
    then syslog got_sigterm >> exit 0
    else syslog (unexpected signo) >> rest

-- 13.6.c: main, with what sigaction, pthread_sigmask and pthread_create answer
unfoldable pub main :
    (argv0 : List ℕ) → (already_running sigaction_fails : Bool) → (mask_err create_err : ℕ) → Daemon
main argv0 already_running sigaction_fails mask_err create_err =
    starts argv0 already_running
    >> (if sigaction_fails then ends_badly else goes_on)
    >> (if mask_err == 0 then goes_on else ends_badly)
    >> (if create_err == 0 then goes_on else ends_badly)
    >> exit 0

-- 13.6.2.c: the handlers
unfoldable pub sigtrem : Daemon
sigtrem = syslog got_sigterm >> exit 0

unfoldable pub sighup_handler : Daemon
sighup_handler = syslog re_reading

-- 13.6.2.c: main, which installs sigtrem and sighup (the code writes sigterm for the first), with what the two calls of sigaction answer
unfoldable pub main2 : (argv0 : List ℕ) → (already_running term_fails hup_fails : Bool) → Daemon
main2 argv0 already_running term_fails hup_fails =
    starts argv0 already_running
    >> (if term_fails then syslog cant_catch_sigterm >> ends_badly else goes_on)
    >> (if hup_fails then syslog cant_catch_sighup >> ends_badly else goes_on)
    >> exit 0
