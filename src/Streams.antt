-- ===== src/Streams.antt =====
-- Loops from a read call to a write call: chapter_01/1.5.3.c, chapter_03/3.9.c, chapter_10/10.21.c,
-- chapter_14/14.5.3.c, chapter_14/14.2.c and chapter_15/15.3.1.c. The replies of the system come in as
-- values: the loop over the reads recurs on their list, and the write number `k` gets the reply `w k`.
-- The result of a program is its exit status and what it has written.
pub mod Copy
pub mod Nonblocking
pub mod Lower
mod Tests
use apue_note.Common.{
  ℕ, zero, suc, ◌+◌, ◌-◌, Bool, true, false, ◌&&◌, Option, none, some, List, [], ◌∷◌, ◌++◌, map,
  leb, ltb, ◌==◌, if◌then◌else◌, length, take, drop,
}
use apue_note.Rot13.{translate}

-- `got []` is the end of the input, a return of 0; the list of the replies may also end for it.
pub data ReadReply : Type 0 where
  got : List ℕ → ReadReply
  read_failed : ReadReply

-- A write takes all the bytes, or at most `n` of them, or fails.
pub data WriteReply : Type 0 where
  whole : WriteReply
  short : ℕ → WriteReply
  write_failed : WriteReply

-- What `write` returns, `none` for -1, and the output behind it.
abbrev pub write : WriteReply → List ℕ → List ℕ → Option ℕ × List ℕ
write whole bs out = (some (length bs), out ++ bs)
write (short n) bs out = (some (length (take n bs)), out ++ take n bs)
write write_failed bs out = (none, out)

-- `write(...) != n`
abbrev pub is_count : Option ℕ → ℕ → Bool
is_count none n = false
is_count (some m) n = m == n

-- The loop of `main` in chapter_01/1.5.3.c, in chapter_03/3.9.c (where the output is descriptor 0) and in
-- chapter_10/10.21.c.
unfoldable pub copy_loop : (ℕ → WriteReply) → List ReadReply → ℕ → List ℕ → ℕ × List ℕ
copy_loop w [] k out = (0, out)
copy_loop w (read_failed ∷ rs) k out = (1, out)
copy_loop w (got [] ∷ rs) k out = (0, out)
copy_loop w (got (b ∷ bs) ∷ rs) k out =
    let (n, out') = write (w k) (b ∷ bs) out in
    let rest = copy_loop w rs (k + 1) out' in
    if is_count n (length (b ∷ bs)) then rest else (1, out')

-- The loop of `main` in chapter_14/14.5.3.c. A failed read ends the loop, and the program with status 0.
unfoldable pub rot13_loop : (ℕ → WriteReply) → List ReadReply → ℕ → List ℕ → ℕ × List ℕ
rot13_loop w [] k out = (0, out)
rot13_loop w (read_failed ∷ rs) k out = (0, out)
rot13_loop w (got [] ∷ rs) k out = (0, out)
rot13_loop w (got (b ∷ bs) ∷ rs) k out =
    let (n, out') = write (w k) (map translate (b ∷ bs)) out in
    let rest = rot13_loop w rs (k + 1) out' in
    if is_count n (length (b ∷ bs)) then rest else (1, out')

-- The loop of `main` in chapter_14/14.2.c, over the replies of `write`: what is left to write, and the
-- output.
unfoldable pub nonblocking_loop : List WriteReply → List ℕ → List ℕ → List ℕ × List ℕ
nonblocking_loop [] todo out = (todo, out)
nonblocking_loop (r ∷ rs) [] out = ([], out)
nonblocking_loop (r ∷ rs) (b ∷ bs) out =
    let (n, out') = write r (b ∷ bs) out in
    nonblocking_loop rs
      (elim n [ none ↦ b ∷ bs | some m ↦ if ltb 0 m then drop m (b ∷ bs) else b ∷ bs ]) out'

-- `isupper` and `tolower` in the C locale
abbrev pub isupper : ℕ → Bool
isupper c = leb b'A' c && leb c b'Z'

abbrev pub tolower : ℕ → ℕ
tolower c = if isupper c then c + 32 else c

-- The standard output: what has been passed on, and what is still in the buffer.
pub record Stdout : Type 0 where
  pub flushed : List ℕ
  pub buffered : List ℕ

abbrev pub fflush : Stdout → Stdout
fflush o = record { flushed = o.flushed ++ o.buffered; buffered = [] }

abbrev pub putchar : ℕ → Stdout → Stdout
putchar c o = record o { buffered = o.buffered ++ c ∷ [] }

-- The loop of `main` in chapter_15/15.3.1.c; `accepts k` is the success of the `putchar` number `k`.
unfoldable pub lower_loop : (ℕ → Bool) → List ℕ → ℕ → Stdout → ℕ × Stdout
lower_loop accepts [] k o = (0, o)
lower_loop accepts (b ∷ bs) k o =
    let c = if isupper b then tolower b else b in
    let o' = putchar c o in
    let rest = lower_loop accepts bs (k + 1) (if c == b'\n' then fflush o' else o') in
    if accepts k then rest else (1, o)
