-- ===== src/Rot13/Work.antt =====
-- chapter_14/14.5.3.2.c: when the system completes every request, the loop ends.
use Prim.Native.Nat.{min}
use apue_note.Common.{
  ℕ, zero, suc, ◌+◌, ◌-◌, ◌*◌, ◌<◌, ◌≤◌, ◌≡◌, ◌≢◌, ◌⊎◌, inl, inr, refl, Bool, true, none, some,
  List, [], ◌∷◌, arith, ltb, length, ◌==◌, sum_to, sum_to-change, sum_to-pos, sum_to-le,
  sum_to-zero, Bool-cases,
}
use native.Mathlib.Decide.{dec_lt}
use apue_note.Common.Process.{ok}
use apue_note.Rot13.Aio.{
  Rwop, unused, read_pending, write_pending, Buf, State, complete, Answer, Pass, start, start_read,
  finish_read, finish_write, visit, pass, after_pass, main_loop, read_started, write_started,
  write_done,
}
use apue_note.Rot13.Copied.{
  Inv, FullRead, AllFull, Translated, visit-Inv, start-Inv, is_pending, pending_of,
  rot13-Translated,
}

-- The steps that a buffer has still to make
abbrev pub weight : Rwop → ℕ
weight unused = 0
weight read_pending = 2
weight write_pending = 1

module _ (nbuf bsz size : ℕ) (input : ℕ → ℕ) (some_bytes : 0 < bsz) where
  abbrev pub work : State → ℕ
  work s = 3 * (size - s.off) + sum_to nbuf (λ i. weight (s.bufs i).op)

  -- The system starts each request and completes it in full.
  pub record IsPrompt (a : Answer) (b : Buf) : Type 0 where
    pub started : a.started ≡ true
    pub reads : b.op ≡ read_pending → a.progress ≡ complete (some (min bsz (size - b.offset)))
    pub writes : b.op ≡ write_pending → a.progress ≡ complete (some b.nbytes)

  -- The buffer of the last block is marked.
  record Fit (s : State) : Type 0 where
    inv : Inv nbuf bsz size input s
    marked :
        (i : ℕ)
        → (s.bufs i).op ≡ read_pending
        → size < (s.bufs i).offset + bsz
        → (s.bufs i).last ≡ true

  -- What a visit of the buffer `i` does.
  record Visited (i : ℕ) (s t : State) : Type 0 where
    fit : Fit t
    less : work t ≤ work s
    moves : (is_pending (s.bufs i).op ≡ true) ⊎ (s.off < size) → work t < work s
    others : (j : ℕ) → j ≢ i → (t.bufs j).op ≡ (s.bufs j).op

  module _ (i : ℕ) (lt : i < nbuf) (s : State) (f : Fit s) (a : Answer)
      (prompt : IsPrompt a (s.bufs i)) where
    full : FullRead nbuf bsz size input a (s.bufs i)
    full at n e = ground (arith, prompt.reads at)

    visit-unused :
        (s.bufs i).op ≡ unused
        → (t : State) × (visit bsz size input unused i a s ≡ ok t) × Visited i s t
    unfolding visit start_read
    visit-unused at = elim (Bool-cases (ltb s.off size)) [
      | inl more ↦
          (let t = read_started bsz size input i s in
            let moved =
              sum_to-change nbuf i (λ k. weight (s.bufs k).op) (λ k. weight (t.bufs k).op) lt
                (λ k ne. ground arith) in
            let q : visit bsz size input unused i a s ≡ ok t = ground (arith, prompt.started) in
            (
              t,
              q,
              record {
                fit = record {
                  inv = visit-Inv nbuf bsz size input i lt s f.inv unused a t at full q;
                  marked = λ j e m. ground (arith, f.marked j);
                };
                less = ground (arith, moved);
                moves = λ m. ground (arith, moved);
                others = λ j ne. ground arith;
              },
            ))
      | inr done ↦ (
        s,
        ground arith,
        record { fit = f; less = omega arith; moves = λ m. ground arith; others = λ j ne. refl },
      )
    ]

    visit-read :
        (s.bufs i).op ≡ read_pending
        → (t : State) × (visit bsz size input read_pending i a s ≡ ok t) × Visited i s t
    unfolding visit finish_read
    visit-read at =
        let n = min bsz (size - (s.bufs i).offset) in
        let t = write_started bsz size input i n s in
        let moved =
          sum_to-change nbuf i (λ k. weight (s.bufs k).op) (λ k. weight (t.bufs k).op) lt
            (λ k ne. ground arith) in
        let got : a.progress ≡ complete (some n) = prompt.reads at in
        let q : visit bsz size input read_pending i a s ≡ ok t =
          rw got (ground (arith, prompt.started, f.marked i at)) in
        (
          t,
          q,
          record {
            fit = record {
              inv = visit-Inv nbuf bsz size input i lt s f.inv read_pending a t at full q;
              marked = λ j e m. ground (arith, f.marked j);
            };
            less = ground (arith, moved);
            moves = λ m. ground (arith, moved);
            others = λ j ne. ground arith;
          },
        )

    visit-write :
        (s.bufs i).op ≡ write_pending
        → (t : State) × (visit bsz size input write_pending i a s ≡ ok t) × Visited i s t
    unfolding visit finish_write
    visit-write at =
        let n = (s.bufs i).nbytes in
        let t = write_done bsz size input i n s in
        let moved =
          sum_to-change nbuf i (λ k. weight (s.bufs k).op) (λ k. weight (t.bufs k).op) lt
            (λ k ne. ground arith) in
        let got : a.progress ≡ complete (some n) = prompt.writes at in
        let q : visit bsz size input write_pending i a s ≡ ok t = rw got (ground arith) in
        (
          t,
          q,
          record {
            fit = record {
              inv = visit-Inv nbuf bsz size input i lt s f.inv write_pending a t at full q;
              marked = λ j e m. ground (arith, f.marked j);
            };
            less = ground (arith, moved);
            moves = λ m. ground (arith, moved);
            others = λ j ne. ground arith;
          },
        )

    visit-prompt :
        (op : Rwop)
        → (s.bufs i).op ≡ op
        → (t : State) × (visit bsz size input op i a s ≡ ok t) × Visited i s t
    visit-prompt unused at = visit-unused at
    visit-prompt read_pending at = visit-read at
    visit-prompt write_pending at = visit-write at

  -- What a pass over the buffers from `i` on does.
  record Passed (left i : ℕ) (s t : State) : Type 0 where
    fit : Fit t
    less : work t ≤ work s
    moves :
        (j : ℕ)
        → i ≤ j
        → j < i + left
        → (is_pending (s.bufs j).op ≡ true) ⊎ (s.off < size)
        → work t < work s

  pass-moves :
      (left i : ℕ) (s u t : State)
      → Visited i s u
      → Passed left (i + 1) u t
      → (j : ℕ) → i ≤ j
      → j < i + suc left
      → (is_pending (s.bufs j).op ≡ true) ⊎ (s.off < size)
      → work t < work s
  pass-moves left i s u t v p j a b (inr more) = omega (arith, v.moves (inr more), p.less)
  pass-moves left i s u t v p j a b (inl pend) = elim (Bool-cases (j == i)) [
    | inl same ↦
        (let e : j ≡ i = ground arith in omega (arith, v.moves (inl (rw e at pend)), p.less))
    | inr other ↦
        (let ne : j ≢ i = ground arith in
          let pend' : is_pending (u.bufs j).op ≡ true = rw (v.others j ne) pend in
          omega (arith, p.moves j (ground arith) (omega arith) (inl pend'), v.less))
  ]

  pass-prompt :
      (left i : ℕ) (answer : ℕ → State → Answer) (s : State)
      → i + left ≤ nbuf
      → ((i : ℕ) (s : State) → IsPrompt (answer i s) (s.bufs i))
      → Fit s
      → (t : State) × (pass bsz size input left i answer s ≡ ok t) × Passed left i s t
  unfolding pass
  pass-prompt zero i answer s le prompt f =
      (s, refl, record { fit = f; less = omega arith; moves = λ j a b m. absurd (omega arith) })
  pass-prompt (suc left) i answer s le prompt f =
      let (u, qu, v) =
        visit-prompt i (omega arith) s f (answer i s) (prompt i s) (s.bufs i).op refl in
      let (t, qt, p) = pass-prompt left (i + 1) answer u (omega arith) prompt v.fit in
      (
        t,
        rw qu qt,
        record {
          fit = p.fit;
          less = omega (arith, p.less, v.less);
          moves = pass-moves left i s u t v p;
        },
      )

  -- Every answer of every pass is prompt, and `aio_suspend` succeeds.
  abbrev pub AllPrompt : List Pass → Type 0
  AllPrompt [] = Unit {0}
  AllPrompt (p ∷ ps) =
      ((i : ℕ) (s : State) → IsPrompt (p.answer i s) (s.bufs i)) × (p.resumed ≡ true) × AllPrompt ps

  weight_of-pending : (op : Rwop) → 0 < weight op → is_pending op ≡ true
  weight_of-pending unused h = absurd (omega arith)
  weight_of-pending _ h = refl

  pending_of-weight : (op : Rwop) → pending_of op ≤ weight op
  pending_of-weight unused = omega arith
  pending_of-weight _ = omega arith

  -- While there is work, a pass does some.
  pass-works : (s t : State) → 0 < nbuf → Passed nbuf 0 s t → 0 < work s → work t < work s
  pass-works s t bufs p h = elim (dec_lt s.off size) [
    | yes more ↦ p.moves 0 (omega arith) (omega arith) (inr more)
    | no all ↦
        let (j, lt, w) = sum_to-pos nbuf (λ k. weight (s.bufs k).op) (omega arith) in
        p.moves j (omega arith) (omega arith) (inl (weight_of-pending (s.bufs j).op w))
  ]

  -- With no work left the loop ends.
  no_work-ends :
      (s : State) (resumed : Bool)
      → Fit s
      → work s ≡ 0
      → after_pass bsz size input resumed s ≡ ok (some s)
  unfolding after_pass
  no_work-ends s resumed f h =
      let few =
        sum_to-le nbuf (λ k. pending_of (s.bufs k).op) (λ k. weight (s.bufs k).op)
          (λ k _. pending_of-weight (s.bufs k).op) in
      ground (arith, few, f.inv.counted)

  after_pass-on :
      (s : State)
      → 0 < work s
      → Fit s
      → (after_pass bsz size input true s ≡ ok none)
        ⊎ (after_pass bsz size input true s ≡ ok (some s))
  unfolding after_pass
  after_pass-on s h f = ground arith

  main_loop-ends :
      (ps : List Pass) (s : State)
      → 0 < nbuf
      → AllPrompt ps
      → Fit s
      → work s < length ps
      → (t : State) × (main_loop bsz size input nbuf ps s ≡ ok (some t))
  unfolding main_loop
  main_loop-ends [] s bufs prompt f enough = absurd (omega arith)
  main_loop-ends (p ∷ ps) s bufs prompt f enough =
      let (t, q, d) = pass-prompt nbuf 0 p.answer s (omega arith) prompt.0 f in
      elim (dec_lt 0 (work t)) [
        | yes more ↦ elim (after_pass-on t more d.fit) [
          | inl on ↦
              let (r, e) =
                main_loop-ends ps t bufs prompt.2 d.fit
                  (omega (arith, pass-works s t bufs d (omega (arith, d.less)))) in
              (r, rw (q, prompt.1, on) e)
          | inr ended ↦ (t, rw (q, prompt.1, ended) refl)
        ]
        | no none_left ↦ (t, rw (q, no_work-ends t p.resumed d.fit (omega arith)) refl)
      ]

  -- With prompt answers for `3 * size + 1` passes the loop ends.
  rot13-ends :
      (ps : List Pass)
      → 0 < nbuf
      → AllPrompt ps
      → 3 * size < length ps
      → (t : State) × (main_loop bsz size input nbuf ps start ≡ ok (some t))
  rot13-ends ps bufs prompt enough =
      main_loop-ends ps start bufs prompt
        (record { inv = start-Inv nbuf bsz size input; marked = λ i q m. cc })
        (omega (arith, sum_to-zero nbuf))

  IsPrompt-FullRead : (a : Answer) (b : Buf) → IsPrompt a b → FullRead nbuf bsz size input a b
  IsPrompt-FullRead a b prompt at n e = ground (arith, prompt.reads at)

  AllPrompt-AllFull : (ps : List Pass) → AllPrompt ps → AllFull nbuf bsz size input ps
  AllPrompt-AllFull [] h = tt
  AllPrompt-AllFull (p ∷ ps) h =
      (λ i s. IsPrompt-FullRead (p.answer i s) (s.bufs i) (h.0 i s), AllPrompt-AllFull ps h.2)

  -- With prompt answers for `3 * size + 1` passes the loop ends, and the output file holds the
  -- translation of the input file and nothing else.
  pub rot13-total :
      (ps : List Pass)
      → 0 < nbuf
      → AllPrompt ps
      → 3 * size < length ps
      → (t : State) × (main_loop bsz size input nbuf ps start ≡ ok (some t))
        × Translated nbuf bsz size input t
  rot13-total ps bufs prompt enough =
      let (t, e) = rot13-ends ps bufs prompt enough in
      (t, e, rot13-Translated nbuf bsz size input ps t (AllPrompt-AllFull ps prompt) e)
