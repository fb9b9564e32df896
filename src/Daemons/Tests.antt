-- ===== src/Daemons/Tests.antt =====
-- Runs of the daemons of chapter_13
use apue_note.Common.{ℕ, ◌≡◌, refl, some, none, List, [], ◌∷◌, ◌++◌, map, arith}
use apue_note.Common.Process.{exited}
use apue_note.Daemons.Signals.{told, thr_fn-exits}
use apue_note.Daemons.{got_sigterm, sighup, sigterm, strrchr, cmd, thr_fn}

abbrev usr_d : List ℕ
usr_d = b'/' ∷ b'u' ∷ b's' ∷ b'r' ∷ b'/' ∷ b'd' ∷ []

abbrev dot_d : List ℕ
dot_d = b'.' ∷ b'/' ∷ b'd' ∷ []

usr_d-cmd : cmd usr_d ≡ (b'd' ∷ [])
unfolding cmd strrchr
usr_d-cmd = refl

thr_fn-exits_example :
    thr_fn (map some (sighup ∷ 2 ∷ []) ++ (some sigterm ∷ none ∷ [])) []
    ≡ (exited 0, [] ++ (map told (sighup ∷ 2 ∷ []) ++ (got_sigterm ∷ [])))
thr_fn-exits_example =
    thr_fn-exits (sighup ∷ 2 ∷ []) (none ∷ []) [] (omega arith, (omega arith, refl))
