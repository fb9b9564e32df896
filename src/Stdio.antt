-- ===== src/Stdio.antt =====
-- The buffering of streams of chapter_05/p1.c. setvbuf does what its documentation says: it fails, or sets
-- the mode and the memory of the stream.
mod Modes
mod Tests
use apue_note.Common.{
  ℕ, ◌≡◌, Bool, true, false, ◌&&◌, ◌||◌, not, Option, none, some, List, [], ◌∷◌, ◌++◌,
  if◌then◌else◌,
}
use apue_note.Common.Process.{Result, ok, exited, Process, pure, exit, err_sys, ◌>>=◌, ◌>>◌}

-- _IONBF, _IOLBF and _IOFBF
pub data Mode : Type 0 where
  ionbf : Mode
  iolbf : Mode
  iofbf : Mode

-- The type of the file behind a stream
pub data FileType : Type 0 where
  fifo : FileType
  socket : FileType
  character : FileType
  block : FileType
  regular : FileType
  directory : FileType

-- A stream: its mode, the memory of its buffer if it is the user's, and the buffer's size
pub record Stream : Type 0 where
  pub is_stderr : Bool
  pub stat : Option FileType
  pub mode : Mode
  pub memory : Option ℕ
  pub size : ℕ

abbrev pub is_linebuffered_type : FileType → Bool
is_linebuffered_type fifo = true
is_linebuffered_type socket = true
is_linebuffered_type character = true
is_linebuffered_type block = true
is_linebuffered_type regular = false
is_linebuffered_type directory = false

abbrev pub bufsiz : ℕ
bufsiz = 8192

abbrev pub set : Mode → Option ℕ → ℕ → Stream → Stream
set m b n fp = record fp { mode = m; memory = b; size = n }

module _ (setvbuf_works : Mode → Bool) where
  -- setvbuf or err_sys
  abbrev pub setvbuf : Mode → Option ℕ → ℕ → Process Stream (Unit {0})
  setvbuf m b n fp = if setvbuf_works m then (ok tt, set m b n fp) else (exited 1, fp)

  abbrev pub by_type : Option FileType → ℕ → Process Stream (Unit {0})
  by_type none b = err_sys
  by_type (some t) b =
      if is_linebuffered_type t
      then setvbuf iolbf (some b) bufsiz
      else setvbuf iofbf (some b) bufsiz

  abbrev pub with_buf : Option ℕ → Process Stream (Unit {0})
  with_buf none fp = setvbuf ionbf none 1 fp
  with_buf (some b) fp = if fp.is_stderr then setvbuf ionbf none 1 fp else by_type fp.stat b fp

  unfoldable pub my_setbuf : Option ℕ → Process Stream (Unit {0})
  my_setbuf buf = with_buf buf

-- What pr_stdio prints of a stream: its mode and buffer_size
pub record Printed : Type 0 where
  pub kind : Mode
  pub buffer_size : ℕ

abbrev pub is_unbuffered : Stream → Bool
is_unbuffered fp = of_mode fp.mode
  where
    of_mode : Mode → Bool
    of_mode ionbf = true
    of_mode iolbf = false
    of_mode iofbf = false

abbrev pub is_linebuffered : Stream → Bool
is_linebuffered fp = of_mode fp.mode
  where
    of_mode : Mode → Bool
    of_mode ionbf = false
    of_mode iolbf = true
    of_mode iofbf = false

unfoldable pub pr_stdio : Stream → Printed
pr_stdio fp = record {
  kind = if is_unbuffered fp then ionbf else (if is_linebuffered fp then iolbf else iofbf);
  buffer_size = fp.size;
}

-- The four streams of main
pub record Streams : Type 0 where
  pub fp : Stream
  pub stderr : Stream
  pub stdin : Stream
  pub stdout : Stream

abbrev pub on_stderr : Process Stream (Unit {0}) → Process Streams (Unit {0})
on_stderr p s = let (r, x) = p s.stderr in (r, record s { stderr = x })

abbrev pub on_fp : Process Stream (Unit {0}) → Process Streams (Unit {0})
on_fp p s = let (r, x) = p s.fp in (r, record s { fp = x })

abbrev pub on_stdin : Process Stream (Unit {0}) → Process Streams (Unit {0})
on_stdin p s = let (r, x) = p s.stdin in (r, record s { stdin = x })

abbrev pub on_stdout : Process Stream (Unit {0}) → Process Streams (Unit {0})
on_stdout p s = let (r, x) = p s.stdout in (r, record s { stdout = x })

-- main, with the number of the memory of buf, which all four calls are given; the lines that it prints in
-- between are left out.
unfoldable pub main : (Mode → Bool) → (buf : ℕ) → Process Streams ℕ
main works buf =
    on_fp (my_setbuf works none)
    >> on_fp (my_setbuf works (some buf))
    >> on_stderr (my_setbuf works (some buf))
    >> on_stdin (my_setbuf works (some buf))
    >> on_stdout (my_setbuf works (some buf))
    >> pure 0
