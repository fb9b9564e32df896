-- ===== src/Adder.antt =====
-- The co-process of chapter_15 that adds two numbers, 15.4.c, 15.4.3.c and 15.4.4.c, and the parent that
-- talks to it over two pipes, 15.4.2.c. An int has 32 bits and wraps around.
mod Digits
mod Scanned
mod Talks
mod Tests
use apue_note.Common.{
  ℕ, zero, suc, ◌+◌, ◌-◌, ◌*◌, ◌/◌, ◌%◌, ◌^◌, ◌≡◌, Bool, true, false, not, ◌&&◌, ◌||◌, Option, none,
  some, List, [], ◌∷◌, ◌++◌, ltb, leb, ◌==◌, if◌then◌else◌, length, take, drop, is_nil,
}

pub data ℤ : Type 0 where
  pos negsuc : ℕ → ℤ

-- The bits of an int, and back
abbrev pub to_word : ℤ → ℕ
to_word (pos n) = n % 2 ^ 32
to_word (negsuc n) = 2 ^ 32 - 1 - n % 2 ^ 32

abbrev pub of_word : ℕ → ℤ
of_word w = if ltb w (2 ^ 31) then pos w else negsuc (2 ^ 32 - 1 - w)

abbrev pub add_int : ℤ → ℤ → ℤ
add_int a b = of_word ((to_word a + to_word b) % 2 ^ 32)

-- sscanf with %d: white space, a sign and one digit at least
abbrev pub isspace : ℕ → Bool
isspace c = (c == 32) || (leb 9 c && leb c 13)

abbrev pub isdigit : ℕ → Bool
isdigit c = leb b'0' c && leb c b'9'

unfoldable pub skip_space : List ℕ → List ℕ
skip_space [] = []
skip_space (c ∷ cs) = let rest = skip_space cs in if isspace c then rest else c ∷ cs

unfoldable pub scan_digits : (so_far : ℕ) → List ℕ → ℕ × List ℕ
scan_digits n [] = (n, [])
scan_digits n (c ∷ cs) =
    let rest = scan_digits (n * 10 + (c - b'0')) cs in if isdigit c then rest else (n, c ∷ cs)

abbrev pub starts_digit : List ℕ → Bool
starts_digit [] = false
starts_digit (c ∷ cs) = isdigit c

abbrev pub negated : ℕ → ℤ
negated zero = pos zero
negated (suc n) = negsuc n

abbrev pub scan_sign : List ℕ → Bool × List ℕ
scan_sign [] = (false, [])
scan_sign (c ∷ cs) =
    if c == b'-' then (true, cs) else if c == b'+' then (false, cs) else (false, c ∷ cs)

abbrev pub scan_value : Bool → List ℕ → Option (ℤ × List ℕ)
scan_value negative cs =
    if starts_digit cs
    then (let (n, rest) = scan_digits 0 cs in
        some (of_word (to_word (if negative then negated n else pos n)), rest))
    else none

abbrev pub scan_int : List ℕ → Option (ℤ × List ℕ)
scan_int cs = let (negative, rest) = scan_sign (skip_space cs) in scan_value negative rest

-- printf with %d; a number has fewer digits than it counts up to, and one at least.
unfoldable pub digits : (fuel : ℕ) → ℕ → List ℕ
digits zero n = []
digits (suc fuel) n =
    let rest = digits fuel (n / 10) in
    if ltb n 10 then (b'0' + n) ∷ [] else rest ++ ((b'0' + n % 10) ∷ [])

abbrev pub print_int : ℤ → List ℕ
print_int (pos n) = digits (suc n) n
print_int (negsuc n) = b'-' ∷ digits (suc (suc n)) (suc n)

abbrev pub invalid_args : List ℕ
invalid_args =
    b'i' ∷ b'n' ∷ b'v' ∷ b'a' ∷ b'l' ∷ b'i' ∷ b'd' ∷ 32 ∷ b'a' ∷ b'r' ∷ b'g' ∷ b's' ∷ b'\n' ∷ []

abbrev pub second_of : ℤ → Option (ℤ × List ℕ) → List ℕ
second_of a none = invalid_args
second_of a (some (b, rest)) = print_int (add_int a b) ++ (b'\n' ∷ [])

abbrev pub first_of : Option (ℤ × List ℕ) → List ℕ
first_of none = invalid_args
first_of (some (a, rest)) = second_of a (scan_int rest)

-- What the three programs answer to a line
unfoldable pub answer : List ℕ → List ℕ
answer line = first_of (scan_int line)

-- How the child reads and writes: by read and write (15.4.c), by lines (15.4.4.c), or by buffers of
-- bufsiz bytes (15.4.3.c on pipes).
pub data Mode : Type 0 where
  by_calls by_lines by_buffers : Mode

-- What the child writes to its pipe for a line, and what stays in its buffer. An answer has one newline,
-- at its end. These are 15.4.c, 15.4.4.c and 15.4.3.c, whose buffer has bufsiz bytes.
abbrev pub add_by_calls : (line : List ℕ) → List ℕ × List ℕ
add_by_calls line = (answer line, [])

abbrev pub add_by_lines : (buffer line : List ℕ) → List ℕ × List ℕ
add_by_lines buffer line = (buffer ++ answer line, [])

abbrev pub add_by_buffers : (bufsiz : ℕ) → (buffer line : List ℕ) → List ℕ × List ℕ
add_by_buffers bufsiz buffer line =
    let out = buffer ++ answer line in
    if ltb (length out) bufsiz then ([], out) else (take bufsiz out, drop bufsiz out)

unfoldable pub child : Mode → (bufsiz : ℕ) → (buffer line : List ℕ) → List ℕ × List ℕ
child by_calls bufsiz buffer line = add_by_calls line
child by_lines bufsiz buffer line = add_by_lines buffer line
child by_buffers bufsiz buffer line = add_by_buffers bufsiz buffer line

-- The end of the parent: exit at the end of its input, with what it has printed, or a read for good from a
-- pipe on which nothing comes.
pub data Talk : Type 0 where
  exited waits_for_good : (printed : List ℕ) → Talk

-- The loop of 15.4.2.c over lines that fit its buffer and end in a newline: one line to the child, and one read of what the
-- child has written. The child reads again only behind that, so an empty answer is waited for for good.
unfoldable pub parent :
    Mode → (bufsiz : ℕ) → (lines : List (List ℕ)) → (buffer printed : List ℕ) → Talk
parent mode bufsiz [] buffer printed = exited printed
parent mode bufsiz (line ∷ lines) buffer printed =
    let (sent, buffer') = child mode bufsiz buffer line in
    let rest = parent mode bufsiz lines buffer' (printed ++ sent) in
    if is_nil sent then waits_for_good printed else rest

-- The process that starts them, with what its calls answer; behind an exec that fails the child is gone,
-- and the parent meets that by SIGPIPE when it writes, or by an end of file when it reads.
pub record Calls : Type 0 where
  pub signal_fails : Bool
  pub pipe_fails : Bool
  pub fork_fails : Bool
  pub exec_fails : Bool
  pub pipe_broken : Bool

-- The status and the output, with the line of sig_pipe
pub data Outcome : Type 0 where
  ends : ℕ → List ℕ → Outcome
  hangs : List ℕ → Outcome
  sigpipe_caught : Outcome

abbrev of_talk : Talk → Outcome
of_talk (exited printed) = ends 0 printed
of_talk (waits_for_good printed) = hangs printed

unfoldable pub main : Calls → Mode → (bufsiz : ℕ) → (lines : List (List ℕ)) → Outcome
unfolding parent
main calls mode bufsiz lines =
    if calls.signal_fails || calls.pipe_fails || calls.fork_fails
    then ends 1 []
    else if calls.exec_fails && not (is_nil lines)
    then (if calls.pipe_broken then sigpipe_caught else ends 0 [])
    else of_talk (parent mode bufsiz lines [] [])
