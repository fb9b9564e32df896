-- ===== src/Daemons/Signals.antt =====
-- What the daemons of chapter_13/13.6.c and 13.6.2.c do
use apue_note.Common.{
  ℕ, ◌≡◌, refl, ap, ◌∙◌, Bool-cases, inl, inr, Bool, true, false, ◌&&◌, not, Option, some, List, [],
  ◌∷◌, ◌++◌, map, ◌==◌, if◌then◌else◌, append-snoc, arith,
}
use apue_note.Common.Process.{exited}
use apue_note.Daemons.{
  Log, daemonized, already_runs, re_reading, got_sigterm, unexpected, sighup, sigterm,
  cant_catch_sigterm, cant_catch_sighup, cmd, starts, thr_fn, main, main2,
}
use apue_note.Daemons.Names.{Free}

-- What the thread logs for a signal
abbrev pub told : ℕ → Log
told signo = if signo == sighup then re_reading else unexpected signo

-- The thread tells of each signal in turn, SIGHUP by reading the configuration again, and the first
-- SIGTERM ends the process with status 0; what comes behind it is not seen.
pub thr_fn-exits :
    (signals : List ℕ) (later : List (Option ℕ)) (log : List Log)
    → Free sigterm signals
    → thr_fn (map some signals ++ (some sigterm ∷ later)) log
      ≡ (exited 0, log ++ (map told signals ++ (got_sigterm ∷ [])))
unfolding thr_fn
thr_fn-exits [] later log free = refl
thr_fn-exits (signo ∷ signals) later log (other, free) =
    let e : (signo == sigterm) ≡ false = ground arith in
    elim (Bool-cases (signo == sighup)) [
      | inl hup ↦ rw hup (
          thr_fn-exits signals later (log ++ (re_reading ∷ [])) free
          ∙ ap (λ l. (exited 0, l))
              (append-snoc log re_reading (map told signals ++ (got_sigterm ∷ []))))
      | inr not_hup ↦
          rw (not_hup, e)
            (thr_fn-exits signals later (log ++ (unexpected signo ∷ [])) free
              ∙ ap (λ l. (exited 0, l))
                  (append-snoc log (unexpected signo) (map told signals ++ (got_sigterm ∷ []))))
    ]

-- main of 13.6.c exits with status 0 if no other daemon runs and its calls succeed, and else with 1: it
-- comes to its end in either case, with the thread just created.
pub main-status :
    (argv0 : List ℕ) (already fails : Bool) (mask_err create_err : ℕ) (log : List Log)
    → (main argv0 already fails mask_err create_err log).0
      ≡ exited (if not already && not fails && (mask_err == 0) && (create_err == 0) then 0 else 1)
unfolding main starts
main-status argv0 true fails mask_err create_err log = refl
main-status argv0 false true mask_err create_err log = refl
main-status argv0 false false mask_err create_err log = elim (Bool-cases (mask_err == 0)) [
  | inl m ↦ elim (Bool-cases (create_err == 0)) [ inl c ↦ rw (m, c) refl | inr c ↦ rw (m, c) refl ]
  | inr m ↦ rw m refl
]

-- main of 13.6.2.c exits with status 0 if no other daemon runs and both handlers are installed, and else
-- it logs the reason last and exits with 1.
pub main2-status :
    (argv0 : List ℕ) (already term_fails hup_fails : Bool) (log : List Log)
    → main2 argv0 already term_fails hup_fails log ≡ (
      exited (if not already && not term_fails && not hup_fails then 0 else 1),
      log
          ++ (daemonized (cmd argv0)
              ∷ (if already
                  then already_runs ∷ []
                  else if term_fails
                  then cant_catch_sigterm ∷ []
                  else if hup_fails
                  then cant_catch_sighup ∷ []
                  else [])),
    )
unfolding main2 starts
main2-status argv0 true term_fails hup_fails log = ap (λ l. (exited 1, l)) (append-snoc log _ _)
main2-status argv0 false true hup_fails log = ap (λ l. (exited 1, l)) (append-snoc log _ _)
main2-status argv0 false false true log = ap (λ l. (exited 1, l)) (append-snoc log _ _)
main2-status argv0 false false false log = refl
