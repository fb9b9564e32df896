-- ===== src/Rot13/Tests.antt =====
-- Runs of chapter_14/14.5.3.c and chapter_14/14.5.3.2.c.
use Prim.Native.Nat.{min}
use apue_note.Common.{
  ℕ, zero, suc, ◌-◌, ◌≡◌, refl, true, some, List, [], ◌∷◌, ◌==◌, if◌then◌else◌, arith,
}
use apue_note.Common.Process.{ok}
use apue_note.Rot13.Aio.{
  Rwop, unused, read_pending, write_pending, State, Progress, in_progress, complete, Pass, start,
  main_loop, Buf,
}
use apue_note.Rot13.Copied.{AllFull, Translated, rot13-Translated}
use apue_note.Rot13.Work.{AllPrompt, IsPrompt, rot13-total}

-- The file `aZ!`, with two buffers of two bytes
abbrev input : ℕ → ℕ
input i = if i == 0 then b'a' else if i == 1 then b'Z' else b'!'

abbrev progress_of : Rwop → Buf → Progress
progress_of unused b = in_progress
progress_of read_pending b = complete (some (min 2 (3 - b.offset)))
progress_of write_pending b = complete (some b.nbytes)

abbrev obliging : Pass
obliging = record {
  answer = λ i s. record { started = true; progress = progress_of (s.bufs i).op (s.bufs i) };
  resumed = true;
}

abbrev passes : ℕ → List Pass
passes zero = []
passes (suc n) = obliging ∷ passes n

obliging-IsPrompt :
    (i : ℕ) (s : State) → IsPrompt 2 2 3 input (omega arith) (obliging.answer i s) (s.bufs i)
obliging-IsPrompt i s = record { started = refl; reads = λ e. rw e refl; writes = λ e. rw e refl }

passes-AllPrompt : (n : ℕ) → AllPrompt 2 2 3 input (omega arith) (passes n)
passes-AllPrompt zero = tt
passes-AllPrompt (suc n) = (obliging-IsPrompt, refl, passes-AllPrompt n)

rot13-total_example :
    (t : State) × (main_loop 2 3 input 2 (passes 10) start ≡ ok (some t)) × Translated 2 2 3 input t
rot13-total_example =
    rot13-total 2 2 3 input (omega arith) (passes 10) (omega arith) (passes-AllPrompt 10)
      (omega arith)

abbrev finished : State
finished =
    (rot13-total 2 2 3 input (omega arith) (passes 10) (omega arith) (passes-AllPrompt 10)
      (omega arith)).0

passes-AllFull : (n : ℕ) → AllFull 2 2 3 input (passes n)
passes-AllFull zero = tt
passes-AllFull (suc n) = (λ i s at k e. some_full (s.bufs i) k at e, passes-AllFull n)
  where
    some_full :
        (b : Buf) (k : ℕ)
        → b.op ≡ read_pending
        → progress_of b.op b ≡ complete (some k)
        → k ≡ min 2 (3 - b.offset)
    some_full b k at e = ground arith

rot13-Translated_example : Translated 2 2 3 input finished
rot13-Translated_example =
    rot13-Translated 2 2 3 input (passes 10) finished (passes-AllFull 10)
      (rot13-total 2 2 3 input (omega arith) (passes 10) (omega arith) (passes-AllPrompt 10)
        (omega arith)).1
