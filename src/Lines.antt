-- ===== src/Lines.antt =====
-- Programs that read a file by fgets or getc: the copies of chapter_05/5.8.c and 5.8.2.c and
-- chapter_01/1.5.4.c, the pager of chapter_15/15.3.c, the filtered prompt of 15.3.2.c, and the shells of
-- chapter_01/1.6.3.c and 1.9.c. MAXLINE of apue.h, and what the calls answer, are arguments.
mod Pieces
mod Copied
mod Commands
mod Tests
use apue_note.Common.{
  ℕ, zero, suc, ◌+◌, ◌-◌, ◌≡◌, Bool, true, false, not, Option, none, some, List, [], ◌∷◌, ◌++◌,
  ◌==◌, if◌then◌else◌, length,
}

-- fgets: at most `room` bytes, and none behind a newline
unfoldable pub piece : (room : ℕ) → List ℕ → List ℕ × List ℕ
piece zero input = ([], input)
piece (suc room) [] = ([], [])
piece (suc room) (c ∷ cs) =
    let rest = piece room cs in if c == b'\n' then (c ∷ [], cs) else (c ∷ rest.0, rest.1)

unfoldable pub fgets : (maxline : ℕ) → List ℕ → Option (List ℕ × List ℕ)
fgets maxline [] = none
fgets maxline (c ∷ cs) = some (piece (maxline - 1) (c ∷ cs))

-- A string in C ends at its first NUL.
unfoldable pub c_string : List ℕ → List ℕ
c_string [] = []
c_string (c ∷ cs) = let rest = c_string cs in if c == 0 then [] else c ∷ rest

-- The exit status, and what has been written
pub record Copy : Type 0 where
  pub status : ℕ
  pub out : List ℕ

-- The loops write `out` so far and count their writes in `k`; `at_end` goes on behind the loop, and a
-- write that fails is err_sys.
unfoldable pub getc_loop :
    (putc_works : ℕ → Bool) (at_end : List ℕ → Copy) → List ℕ → (k : ℕ) → (out : List ℕ) → Copy
getc_loop putc_works at_end [] k out = at_end out
getc_loop putc_works at_end (c ∷ cs) k out =
    let rest = getc_loop putc_works at_end cs (k + 1) (out ++ (c ∷ [])) in
    if putc_works k then rest else record { status = 1; out = out }

-- ferror and exit
abbrev pub ending : (read_fails : Bool) → List ℕ → Copy
ending read_fails out = record { status = if read_fails then 1 else 0; out = out }

-- 1.5.4.c and 5.8.c
unfoldable pub copy_getc : (putc_works : ℕ → Bool) → (read_fails : Bool) → List ℕ → Copy
unfolding getc_loop
copy_getc putc_works read_fails input = getc_loop putc_works (ending read_fails) input 0 []

abbrev pub next_piece :
    (goes_on : List ℕ → List ℕ → Copy) (at_end : Copy) → Option (List ℕ × List ℕ) → Copy
next_piece goes_on at_end none = at_end
next_piece goes_on at_end (some (line, rest)) = goes_on line rest

-- `before` is written ahead of each call of fgets.
unfoldable pub fgets_loop :
    (before : List ℕ) (maxline : ℕ) (fputs_works : ℕ → Bool) (at_end : List ℕ → Copy) (fuel : ℕ)
    → List ℕ
    → (k : ℕ) → (out : List ℕ) → Copy
fgets_loop before maxline fputs_works at_end zero input k out = at_end (out ++ before)
fgets_loop before maxline fputs_works at_end (suc fuel) input k out =
    next_piece
      (λ line rest.
        let later =
          fgets_loop before maxline fputs_works at_end fuel rest (k + 1)
            (out ++ before ++ c_string line) in
        if fputs_works k then later else record { status = 1; out = out ++ before })
      (at_end (out ++ before)) (fgets maxline input)

-- 5.8.2.c; each piece has a byte at least, so the length of the input is fuel enough.
unfoldable pub copy_fgets :
    (maxline : ℕ) → (fputs_works : ℕ → Bool) → (read_fails : Bool) → List ℕ → Copy
unfolding fgets_loop
copy_fgets maxline fputs_works read_fails input =
    fgets_loop [] maxline fputs_works (ending read_fails) (length input) input 0 []

abbrev pub failed : Copy
failed = record { status = 1; out = [] }

-- 15.3.c, with what it writes to the pager
unfoldable pub pager :
    (argc maxline : ℕ) (fopen_works popen_works : Bool) (fputs_works : ℕ → Bool) (read_fails : Bool)
    (pclose_works : Bool)
    → List ℕ
    → Copy
unfolding fgets_loop
pager argc maxline fopen_works popen_works fputs_works read_fails pclose_works input =
    if not (argc == 2)
    then failed
    else if not fopen_works
    then failed
    else if not popen_works
    then failed
    else fgets_loop [] maxline fputs_works
        (λ out. record {
          status = if read_fails then 1 else if pclose_works then 0 else 1;
          out = out;
        })
        (length input) input 0 []

abbrev pub prompt : List ℕ
prompt = b'p' ∷ b'r' ∷ b'o' ∷ b'm' ∷ b'p' ∷ b't' ∷ b'>' ∷ 32 ∷ []

-- 15.3.2.c, with the output of the filter as its input
unfoldable pub prompter :
    (maxline : ℕ) (popen_works : Bool) (fputs_works : ℕ → Bool) (pclose_works : Bool)
    → List ℕ
    → Copy
unfolding fgets_loop
prompter maxline popen_works fputs_works pclose_works input =
    if not popen_works
    then failed
    else fgets_loop prompt maxline fputs_works
        (λ out.
          if pclose_works
          then record { status = 0; out = out ++ (b'\n' ∷ []) }
          else record { status = 1; out = out })
        (length input) input 0 []
