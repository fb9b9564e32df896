-- ===== src/Copies/Tests.antt =====
-- The copies of chapter_04/p6.c and chapter_14/14.8.c on small files
use apue_note.Common.{ℕ, ◌≡◌, Bool, true, Option, some, List, [], ◌∷◌, arith}
use apue_note.Common.Process.{ok, exited}
use apue_note.Copies.{Got, chunk, end, File, main_holes, main_mapped, copyincr}
use apue_note.Copies.Holes.{Honest, main_holes-status}
use apue_note.Copies.Mapped.{Right, main_mapped-Right}

abbrev fine : ℕ → Bool
fine _ = true

abbrev takes_all : ℕ → ℕ → Option ℕ
takes_all o n = some n

takes_all-Honest : Honest takes_all
takes_all-Honest o n h e = absurd (ground arith)

abbrev nothing : File
nothing = record { content = []; offset = 0 }

main_holes-status_example :
    ((b : ℕ) (bs : List ℕ) (gs : List Got)
      → (main_holes 3 true true fine takes_all (chunk b bs ∷ gs) nothing).0 ≡ exited 1)
    × ((gs : List Got) → main_holes 3 true true fine takes_all (end ∷ gs) nothing ≡ (ok 0, nothing))
main_holes-status_example = main_holes-status fine takes_all nothing takes_all-Honest

main_mapped-Right_example :
    Right copyincr fine fine (7 ∷ 8 ∷ []) (main_mapped true true true true fine fine (7 ∷ 8 ∷ []) 1)
main_mapped-Right_example = main_mapped-Right fine fine (7 ∷ 8 ∷ []) 1 (omega arith)
