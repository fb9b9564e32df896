-- ===== src/Stdio/Modes.antt =====
-- The modes that chapter_05/p1.c sets
use apue_note.Common.{
  ℕ, ◌≡◌, refl, inl, inr, Bool, Bool-cases, true, false, Option, none, some, if◌then◌else◌,
}
use apue_note.Common.Process.{Result, ok, exited}
use apue_note.Stdio.{
  Mode, ionbf, iolbf, iofbf, FileType, Stream, is_linebuffered_type, bufsiz, set, setvbuf, by_type,
  my_setbuf, pr_stdio,
}

-- The mode for a stream and a buffer; none if its file's type cannot be found out
abbrev pub mode_by_type : Option FileType → Option Mode
mode_by_type none = none
mode_by_type (some t) = some (if is_linebuffered_type t then iolbf else iofbf)

abbrev pub mode_for : Stream → Option ℕ → Option Mode
mode_for fp none = some ionbf
mode_for fp (some b) = if fp.is_stderr then some ionbf else mode_by_type fp.stat

-- What is expected: an end with status 1 and the stream as it was, or the mode, and what is printed of it
abbrev pub Expected : (Mode → Bool) → Option Mode → Stream → Result (Unit {0}) × Stream → Type 0
Expected works none fp x = x ≡ (exited 1, fp)
Expected works (some m) fp x =
    if works m then ((x.0 ≡ ok tt) × ((pr_stdio x.1).kind ≡ m)) else (x ≡ (exited 1, fp))

pr_stdio-set : (m : Mode) (b : Option ℕ) (n : ℕ) (fp : Stream) → (pr_stdio (set m b n fp)).kind ≡ m
unfolding pr_stdio
pr_stdio-set ionbf b n fp = refl
pr_stdio-set iolbf b n fp = refl
pr_stdio-set iofbf b n fp = refl

module _ (works : Mode → Bool) where
  setvbuf-Expected :
      (m : Mode) (b : Option ℕ) (n : ℕ) (fp : Stream)
      → Expected works (some m) fp (setvbuf works m b n fp)
  setvbuf-Expected m b n fp = elim (Bool-cases (works m)) [
    | inl t ↦ rw t (refl, pr_stdio-set m b n fp)
    | inr f ↦ rw f refl
  ]

  by_type-Expected :
      (t : Option FileType) (b : ℕ) (fp : Stream)
      → Expected works (mode_by_type t) fp (by_type works t b fp)
  by_type-Expected none b fp = refl
  by_type-Expected (some t) b fp = elim (Bool-cases (is_linebuffered_type t)) [
    | inl l ↦ rw l (setvbuf-Expected iolbf (some b) bufsiz fp)
    | inr l ↦ rw l (setvbuf-Expected iofbf (some b) bufsiz fp)
  ]

  with_buf-Expected :
      (c : Bool) (b : ℕ) (fp : Stream)
      → Expected works
          (if c then some ionbf else mode_by_type fp.stat)
          fp
          (if c then setvbuf works ionbf none 1 fp else by_type works fp.stat b fp)
  with_buf-Expected true b fp = setvbuf-Expected ionbf none 1 fp
  with_buf-Expected false b fp = by_type-Expected fp.stat b fp

  -- my_setbuf makes a stream unbuffered if it is given no buffer or stderr, line buffered if the file is a
  -- FIFO, a socket or a device, and fully buffered else, as pr_stdio then says; it ends the process with
  -- status 1 and leaves the stream alone exactly if fstat or the setvbuf for the mode fails.
  pub my_setbuf-Expected :
      (buf : Option ℕ) (fp : Stream) → Expected works (mode_for fp buf) fp (my_setbuf works buf fp)
  unfolding my_setbuf
  my_setbuf-Expected none fp = setvbuf-Expected ionbf none 1 fp
  my_setbuf-Expected (some b) fp = with_buf-Expected fp.is_stderr b fp
