-- ===== src/Reports/Waiting.antt =====
-- What pr_exit of chapter_08/8.6.c makes of a status
use apue_note.Common.{ℕ, ◌+◌, ◌*◌, ◌<◌, ◌≡◌, Bool, true, false, [], ◌∷◌, if◌then◌else◌, arith}
use apue_note.Reports.{Report, normal, abnormal, stopped, silent, pr_exit, run, main}

-- The status by which Linux tells of an end or a stop
abbrev pub status_of : Report → ℕ
status_of (normal n) = n * 256
status_of (abnormal sig core) = sig + (if core then 128 else 0)
status_of (stopped sig) = sig * 256 + 127
status_of silent = 65535

-- Exit statuses and signals within their ranges
abbrev pub Possible : Report → Type 0
Possible (normal n) = n < 256
Possible (abnormal sig core) = (0 < sig) × (sig < 127)
Possible (stopped sig) = sig < 256
Possible silent = ⊥

-- pr_exit reports what the status tells: the exit status, the signal and whether there is a core file, or
-- the signal that stopped the child.
pub pr_exit-status_of : (r : Report) → Possible r → pr_exit (status_of r) ≡ r
unfolding pr_exit
pr_exit-status_of (normal n) h = ground arith
pr_exit-status_of (abnormal sig true) h = ground arith
pr_exit-status_of (abnormal sig false) h = ground arith
pr_exit-status_of (stopped sig) h = ground arith
pr_exit-status_of silent h = absurd h

-- Whatever the numbers of the children, main of 8.6.c reports the exit status 7 of the first, the signal
-- SIGABRT of the second with its core file if it leaves one, and the exit status 1 of the third, which does
-- not end by a signal but by its own failing wait; and it ends with status 0.
pub main-run :
    (p1 p2 p3 : ℕ) (core : Bool)
    → main p1 p2 p3 core ≡ (0, normal 7 ∷ abnormal 6 core ∷ normal 1 ∷ [])
unfolding main run pr_exit
main-run p1 p2 p3 true = ground arith
main-run p1 p2 p3 false = ground arith
