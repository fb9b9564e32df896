-- ===== src/Streams/Tests.antt =====
-- Runs of the copy programs.
use apue_note.Common.{◌≡◌, refl, List, [], ◌∷◌, ◌++◌, arith}
use apue_note.Streams.{
  ReadReply, got, read_failed, WriteReply, whole, short, write_failed, copy_loop, nonblocking_loop,
  Stdout,
}
use apue_note.Streams.Copy.{input_of, ReadsWell, copy_loop-status}
use apue_note.Streams.Nonblocking.{nonblocking_loop-finishes}

abbrev reads : List ReadReply
reads = got (1 ∷ 2 ∷ []) ∷ got (3 ∷ []) ∷ got [] ∷ []

abbrev broken_reads : List ReadReply
broken_reads = got (b'a' ∷ b'b' ∷ []) ∷ read_failed ∷ []

copy_loop-status_example :
    ReadsWell reads × ((copy_loop (λ _. whole) reads 0 []).1 ≡ [] ++ input_of reads)
unfolding copy_loop
copy_loop-status_example = copy_loop-status (λ _. whole) reads 0 [] refl

copy_loop_short : copy_loop (λ _. short 1) reads 0 [] ≡ (1, 1 ∷ [])
unfolding copy_loop
copy_loop_short = refl

abbrev replies : List WriteReply
replies = short 1 ∷ write_failed ∷ short 5 ∷ whole ∷ []

nonblocking_loop-finishes_example :
    ((nonblocking_loop replies (1 ∷ 2 ∷ 3 ∷ []) []).0 ≡ [])
    × ((nonblocking_loop replies (1 ∷ 2 ∷ 3 ∷ []) []).1 ≡ [] ++ 1 ∷ 2 ∷ 3 ∷ [])
nonblocking_loop-finishes_example =
    nonblocking_loop-finishes replies (1 ∷ 2 ∷ 3 ∷ []) [] (omega arith)

abbrev empty_out : Stdout
empty_out = record { flushed = []; buffered = [] }
