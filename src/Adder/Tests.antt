-- ===== src/Adder/Tests.antt =====
-- Runs of the adder of chapter_15
use apue_note.Common.{ℕ, ◌≡◌, refl, false, List, [], ◌∷◌, ◌++◌, arith}
use apue_note.Adder.Scanned.{answer-sum}
use apue_note.Adder.{
  pos, negsuc, add_int, print_int, invalid_args, answer, skip_space, scan_digits, Calls,
}

-- "12 -5" and "1"
abbrev numbers : List ℕ
numbers = b'1' ∷ b'2' ∷ 32 ∷ b'-' ∷ b'5' ∷ b'\n' ∷ []

abbrev number : List ℕ
number = b'1' ∷ b'\n' ∷ []

not_answered : answer number ≡ invalid_args
unfolding answer skip_space scan_digits
not_answered = refl

answer-sum_example :
    answer (print_int (pos 12) ++ (32 ∷ (print_int (negsuc 4) ++ (b'\n' ∷ []))))
    ≡ print_int (add_int (pos 12) (negsuc 4)) ++ (b'\n' ∷ [])
answer-sum_example = answer-sum (pos 12) (negsuc 4) (omega arith) (omega arith)

abbrev all_succeed : Calls
all_succeed = record {
  signal_fails = false;
  pipe_fails = false;
  fork_fails = false;
  exec_fails = false;
  pipe_broken = false;
}
