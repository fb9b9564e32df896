-- ===== src/Rot13/Aio.antt =====
-- `main` of chapter_14/14.5.3.2.c: each of NBUF buffers is unused, being read or being written. The
-- answers of the system to the calls for a buffer come in as values.
use apue_note.Common.{
  ℕ, zero, suc, ◌+◌, ◌-◌, Bool, true, false, not, ◌&&◌, Option, none, some, List, [], ◌∷◌, ltb, leb,
  ◌==◌, if◌then◌else◌, update,
}
use apue_note.Common.Process.{Result, ok, exited}
use apue_note.Rot13.{translate}

-- `enum rwop`
pub data Rwop : Type 0 where
  unused read_pending write_pending : Rwop

pub data File : Type 0 where
  infile outfile : File

-- `struct buf`, with the fields of its control block: `aio_fildes`, `aio_offset`, `aio_nbytes`.
pub record Buf : Type 0 where
  pub op : Rwop
  pub last : Bool
  pub fildes : File
  pub offset : ℕ
  pub nbytes : ℕ
  pub bytes : ℕ → ℕ

-- `listed i` tells whether `aiolist[i]` is not NULL; `out` is the content of the output file.
pub record State : Type 0 where
  pub bufs : ℕ → Buf
  pub listed : ℕ → Bool
  pub off : ℕ
  pub numop : ℕ
  pub out : ℕ → Option ℕ

-- What `aio_error` says, and `aio_return` where that is called; `none` is its failure.
pub data Progress : Type 0 where
  in_progress error_failed : Progress
  errored : ℕ → Progress
  complete : Option ℕ → Progress

-- The answers for one buffer in one pass: `started` is the success of `aio_read` or `aio_write`.
pub record Answer : Type 0 where
  pub started : Bool
  pub progress : Progress

-- The answers of one pass, which may depend on the requests made, and the success of `aio_suspend`
-- behind it
pub record Pass : Type 0 where
  pub answer : ℕ → State → Answer
  pub resumed : Bool

-- The transfer of a request that is complete with `n` bytes
abbrev pub after_read : (ℕ → ℕ) → Buf → ℕ → ℕ → ℕ
after_read input b n j = if ltb j n then input (b.offset + j) else b.bytes j

abbrev pub after_write : (ℕ → Option ℕ) → Buf → ℕ → ℕ → Option ℕ
after_write out b n p =
    if leb b.offset p && ltb p (b.offset + n) then some (b.bytes (p - b.offset)) else out p

-- `for (j = 0; j < n; j++) data[j] = translate(data[j])`
unfoldable pub translate_loop : ℕ → (ℕ → ℕ) → ℕ → ℕ
translate_loop zero bytes = bytes
translate_loop (suc n) bytes = update (translate_loop n bytes) n (translate (bytes n))

abbrev pub then_pass : {A : Type 0} → Result State → (State → Result A) → Result A
then_pass (ok s) f = f s
then_pass (exited n) f = exited n

-- Goes on with the loop unless it has ended.
abbrev pub then_loop : Result (Option State) → Result (Option State) → Result (Option State)
then_loop (ok none) rest = rest
then_loop r rest = r

-- `bufs` is a static array, all zero.
abbrev pub start : State
start = record {
  bufs = λ _. record {
    op = unused;
    last = false;
    fildes = infile;
    offset = 0;
    nbytes = 0;
    bytes = λ _. 0;
  };
  listed = λ _. false;
  off = 0;
  numop = 0;
  out = λ _. none;
}

module _ (bsz size : ℕ) (input : ℕ → ℕ) where
  -- The state when `aio_read` has been called for the buffer `i`
  abbrev pub read_started : ℕ → State → State
  read_started i s = record s {
    bufs = update s.bufs i (record (s.bufs i) {
      op = read_pending;
      last = if leb size (s.off + bsz) then true else (s.bufs i).last;
      fildes = infile;
      offset = s.off;
      nbytes = bsz;
    });
    listed = update s.listed i true;
    off = s.off + bsz;
    numop = s.numop + 1;
  }

  unfoldable pub start_read : ℕ → Answer → State → Result State
  start_read i a s =
      if ltb s.off size then (if a.started then ok (read_started i s) else exited 1) else ok s

  -- The state when `n` bytes have been read and `aio_write` has been called
  abbrev pub write_started : ℕ → ℕ → State → State
  write_started i n s = record s {
    bufs = update s.bufs i (record (s.bufs i) {
      op = write_pending;
      fildes = outfile;
      nbytes = n;
      bytes = translate_loop n (after_read input (s.bufs i) n);
    });
  }

  unfoldable pub finish_read : ℕ → Answer → Progress → State → Result State
  finish_read i a in_progress s = ok s
  finish_read i a error_failed s = exited 1
  finish_read i a (errored _) s = exited 1
  finish_read i a (complete none) s = exited 1
  finish_read i a (complete (some n)) s =
      if not (n == bsz) && not (s.bufs i).last
      then exited 1
      else if a.started
      then ok (write_started i n s)
      else exited 1

  -- The state when the `n` bytes of the buffer `i` have been written
  abbrev pub write_done : ℕ → ℕ → State → State
  write_done i n s = record s {
    bufs = update s.bufs i (record (s.bufs i) { op = unused });
    listed = update s.listed i false;
    numop = s.numop - 1;
    out = after_write s.out (s.bufs i) n;
  }

  unfoldable pub finish_write : ℕ → Progress → State → Result State
  finish_write i in_progress s = ok s
  finish_write i error_failed s = exited 1
  finish_write i (errored _) s = exited 1
  finish_write i (complete none) s = exited 1
  finish_write i (complete (some n)) s =
      if n == (s.bufs i).nbytes then ok (write_done i n s) else exited 1

  -- The `switch` on the state of the buffer `i`
  unfoldable pub visit : Rwop → ℕ → Answer → State → Result State
  visit unused i a s = start_read i a s
  visit read_pending i a s = finish_read i a a.progress s
  visit write_pending i a s = finish_write i a.progress s

  -- The buffers from `i` on, `left` of them
  unfoldable pub pass : ℕ → ℕ → (ℕ → State → Answer) → State → Result State
  unfolding visit start_read finish_read finish_write translate_loop translate
  pass zero i answer s = ok s
  pass (suc left) i answer s =
      then_pass (visit (s.bufs i).op i (answer i s) s) (λ s'. pass left (i + 1) answer s')

  -- The end of a pass: `some` is the end of the loop.
  unfoldable pub after_pass : Bool → State → Result (Option State)
  after_pass resumed s =
      if s.numop == 0
      then (if leb size s.off then ok (some s) else ok none)
      else (if resumed then ok none else exited 1)

  -- The loop over the passes of a run: `none` is a loop that still runs when the answers end.
  unfoldable pub main_loop : ℕ → List Pass → State → Result (Option State)
  unfolding pass after_pass
  main_loop nbuf [] s = ok none
  main_loop nbuf (p ∷ ps) s =
      then_pass (pass nbuf 0 p.answer s)
        (λ s'. then_loop (after_pass p.resumed s') (main_loop nbuf ps s'))
