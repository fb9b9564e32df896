-- ===== src/Rot13.antt =====
-- chapter_14/14.5.3.c and chapter_14/14.5.3.2.c: ROT13 of a file, by `read` and `write` and by
-- asynchronous requests on NBUF buffers. BSZ and NBUF are parameters.
pub mod Letters
pub mod Aio
pub mod Copied
pub mod Work
mod Tests
use apue_note.Common.{
  ℕ, zero, suc, ◌+◌, ◌-◌, ◌*◌, ◌%◌, Bool, true, false, not, ◌&&◌, ◌||◌, Option, none, some, List,
  [], ◌∷◌, ltb, leb, ◌==◌, if◌then◌else◌,
}

-- `isalpha` in the C locale
abbrev pub isalpha : ℕ → Bool
isalpha c = (leb b'A' c && leb c b'Z') || (leb b'a' c && leb c b'z')

-- On `unsigned char`
unfoldable pub translate : ℕ → ℕ
translate c =
    if isalpha c
    then (if leb b'n' c
        then (c + 256 - 13) % 256
        else if leb b'a' c
        then (c + 13) % 256
        else if leb b'N' c
        then (c + 256 - 13) % 256
        else (c + 13) % 256)
    else c
