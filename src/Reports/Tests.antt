-- ===== src/Reports/Tests.antt =====
-- Runs of chapter_10/p2.c and chapter_08/8.6.c; SIGRTMIN is 34.
use apue_note.Common.{◌≡◌, refl, true, arith}
use apue_note.Reports.{sigiot, sig2str, abnormal, pr_exit}
use apue_note.Reports.Waiting.{status_of, pr_exit-status_of}

-- The second line for number 6 overwrites the first.
six : sig2str 34 6 ≡ sigiot
unfolding sig2str
six = refl

pr_exit-status_of_example : pr_exit (status_of (abnormal 6 true)) ≡ abnormal 6 true
pr_exit-status_of_example = pr_exit-status_of (abnormal 6 true) (omega arith, omega arith)
