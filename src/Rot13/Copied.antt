-- ===== src/Rot13/Copied.antt =====
-- chapter_14/14.5.3.2.c: when the loop ends, the output file holds the translated input.
use Prim.Native.Nat.{min}
use apue_note.Common.{
  ℕ, zero, suc, ◌+◌, ◌-◌, ◌<◌, ◌≤◌, ◌≡◌, ◌⊎◌, inl, inr, refl, ap, sym, ◌∙◌, Bool, true, false,
  Option, none, some, List, [], ◌∷◌, arith, ltb, ◌==◌, if◌then◌else◌, sum_to, sum_to-change,
  sum_to-of_mem, sum_to-zero, Bool-cases, Option-cases,
}
use mathlib.Core.Path.{subst}
use native.Mathlib.Decide.{dec_lt}
use apue_note.Common.Process.{Result, ok, exited}
use apue_note.Rot13.{translate}
use apue_note.Rot13.Aio.{
  Rwop, unused, read_pending, write_pending, Buf, State, Progress, in_progress, error_failed,
  errored, complete, Answer, Pass, start, start_read, finish_read, finish_write, visit, pass,
  after_pass, main_loop, translate_loop, after_read, read_started, write_started, write_done,
  then_pass, then_loop,
}

abbrev pub pending_of : Rwop → ℕ
pending_of unused = 0
pending_of _ = 1

abbrev pub is_pending : Rwop → Bool
is_pending unused = false
is_pending _ = true

translate_loop_lem :
    (n j : ℕ) (bytes : ℕ → ℕ)
    → translate_loop n bytes j ≡ (if ltb j n then translate (bytes j) else bytes j)
unfolding translate_loop
translate_loop_lem zero j bytes = ground arith
translate_loop_lem (suc n) j bytes = ground (arith, translate_loop_lem n j bytes)

ok-injective : {A : Type 0} {a b : A} → ok a ≡ ok b → a ≡ b
ok-injective e = cc

then_pass-ok :
    {A : Type 0} {a : A} (r : Result State) (f : State → Result A)
    → then_pass r f ≡ ok a
    → (s : State) × (r ≡ ok s) × (f s ≡ ok a)
then_pass-ok (ok s) f e = (s, refl, e)
then_pass-ok (exited n) f e = cc

module _ (nbuf bsz size : ℕ) (input : ℕ → ℕ) where
  -- A read that is complete has read to the end of its block or of the file.
  abbrev pub FullRead : Answer → Buf → Type 0
  FullRead a b =
      b.op ≡ read_pending → (n : ℕ) → a.progress ≡ complete (some n) → n ≡ min bsz (size - b.offset)

  -- The byte `p` is in the block of the buffer `i`, which is pending.
  abbrev pub InBlock : State → ℕ → ℕ → Type 0
  InBlock s p i =
      (i < nbuf)
      × (is_pending (s.bufs i).op ≡ true)
      × ((s.bufs i).offset ≤ p)
      × (p < (s.bufs i).offset + bsz)

  pub record Inv (s : State) : Type 0 where
    pub covered :
        (p : ℕ)
        → p < s.off
        → p < size
        → (s.out p ≡ some (translate (input p))) ⊎ ((i : ℕ) × InBlock s p i)
    pub right : (p v : ℕ) → s.out p ≡ some v → (p < size) × (v ≡ translate (input p))
    pub writing :
        (i : ℕ)
        → (s.bufs i).op ≡ write_pending
        → ((s.bufs i).nbytes ≡ min bsz (size - (s.bufs i).offset))
    pub written :
        (i j : ℕ)
        → (s.bufs i).op ≡ write_pending
        → j < (s.bufs i).nbytes
        → (s.bufs i).bytes j ≡ translate (input ((s.bufs i).offset + j))
    pub counted : s.numop ≡ sum_to nbuf (λ i. pending_of (s.bufs i).op)

  module _ (i : ℕ) (lt : i < nbuf) (s : State) (inv : Inv s) where
    read_started-Inv : (s.bufs i).op ≡ unused → Inv (read_started bsz size input i s)
    read_started-Inv at = record {
      covered = λ p before inside. elim (dec_lt p s.off) [
        | yes old ↦ elim (inv.covered p old inside) [
          | inl w ↦ inl w
          | inr (j, b) ↦ inr (j, ground arith)
        ]
        | no new ↦ inr (i, ground arith)
      ];
      right = inv.right;
      writing = λ k q. ground (arith, inv.writing k);
      written = λ k j q w. ground (arith, inv.written k j);
      counted = ground (
        arith,
        inv.counted,
        sum_to-change nbuf i (λ k. pending_of (s.bufs k).op)
            (λ k. pending_of ((read_started bsz size input i s).bufs k).op) lt
            (λ k ne. ground arith),
      );
    }

    write_started-Inv :
        (n : ℕ)
        → (s.bufs i).op ≡ read_pending
        → n ≡ min bsz (size - (s.bufs i).offset)
        → Inv (write_started bsz size input i n s)
    write_started-Inv n at full = record {
      covered = λ p before inside. elim (inv.covered p before inside) [
        | inl w ↦ inl w
        | inr (j, b) ↦ inr (j, ground arith)
      ];
      right = inv.right;
      writing = λ k q. ground (arith, inv.writing k);
      written = λ k j q w.
          ground (arith, inv.written k j, translate_loop_lem n j (after_read input (s.bufs i) n));
      counted = ground (
        arith,
        inv.counted,
        sum_to-change nbuf i (λ k. pending_of (s.bufs k).op)
            (λ k. pending_of ((write_started bsz size input i n s).bufs k).op) lt
            (λ k ne. ground arith),
      );
    }

    -- A byte of a block that is being written
    block_byte :
        (p : ℕ)
        → (s.bufs i).op ≡ write_pending
        → (s.bufs i).offset ≤ p
        → p < (s.bufs i).offset + (s.bufs i).nbytes
        → (s.bufs i).bytes (p - (s.bufs i).offset) ≡ translate (input p)
    block_byte p at le lt' =
        let e : (s.bufs i).offset + (p - (s.bufs i).offset) ≡ p = omega arith in
        inv.written i (p - (s.bufs i).offset) at (omega arith) ∙ ap (λ k. translate (input k)) e

    write_done-Inv :
        (n : ℕ)
        → (s.bufs i).op ≡ write_pending
        → n ≡ (s.bufs i).nbytes
        → Inv (write_done bsz size input i n s)
    write_done-Inv n at full = record {
      covered = λ p before inside. elim (inv.covered p before inside) [
        | inl w ↦ inl (ground (arith, block_byte p at))
        | inr (j, b) ↦ elim (Bool-cases (j == i)) [
          | inl same ↦
              (let e : j ≡ i = ground arith in
                inl (ground (arith, block_byte p at, inv.writing i at)))
          | inr other ↦ inr (j, ground arith)
        ]
      ];
      right = λ p v q. ground (arith, inv.right p v, block_byte p at, inv.writing i at);
      writing = λ k q. ground (arith, inv.writing k);
      written = λ k j q w. ground (arith, inv.written k j);
      counted = ground (
        arith,
        inv.counted,
        sum_to-change nbuf i (λ k. pending_of (s.bufs k).op)
            (λ k. pending_of ((write_done bsz size input i n s).bufs k).op) lt
            (λ k ne. ground arith),
      );
    }

    start_read-cases :
        (a : Answer) (t : State)
        → start_read bsz size input i a s ≡ ok t
        → (t ≡ s) ⊎ (t ≡ read_started bsz size input i s)
    unfolding start_read
    start_read-cases a t e = ground arith

    finish_read-cases :
        (a : Answer) (g : Progress) (t : State)
        → finish_read bsz size input i a g s ≡ ok t
        → (t ≡ s) ⊎ ((n : ℕ) × (g ≡ complete (some n)) × (t ≡ write_started bsz size input i n s))
    unfolding finish_read
    finish_read-cases a in_progress t e = inl (ground arith)
    finish_read-cases a error_failed t e = cc
    finish_read-cases a (errored _) t e = cc
    finish_read-cases a (complete none) t e = cc
    finish_read-cases a (complete (some n)) t e = inr (n, refl, ground arith)

    finish_write-cases :
        (g : Progress) (t : State)
        → finish_write bsz size input i g s ≡ ok t
        → (t ≡ s) ⊎ ((n : ℕ) × (n ≡ (s.bufs i).nbytes) × (t ≡ write_done bsz size input i n s))
    unfolding finish_write
    finish_write-cases in_progress t e = inl (ground arith)
    finish_write-cases error_failed t e = cc
    finish_write-cases (errored _) t e = cc
    finish_write-cases (complete none) t e = cc
    finish_write-cases (complete (some n)) t e = inr (n, ground arith, ground arith)

    pub visit-Inv :
        (op : Rwop) (a : Answer) (t : State)
        → (s.bufs i).op ≡ op
        → FullRead a (s.bufs i)
        → visit bsz size input op i a s ≡ ok t
        → Inv t
    unfolding visit
    visit-Inv unused a t at full e = elim (start_read-cases a t e) [
      | inl q ↦ subst Inv (sym q) inv
      | inr q ↦ subst Inv (sym q) (read_started-Inv at)
    ]
    visit-Inv read_pending a t at full e = elim (finish_read-cases a a.progress t e) [
      | inl q ↦ subst Inv (sym q) inv
      | inr (n, g, q) ↦ subst Inv (sym q) (write_started-Inv n at (full at n g))
    ]
    visit-Inv write_pending a t at full e = elim (finish_write-cases a.progress t e) [
      | inl q ↦ subst Inv (sym q) inv
      | inr (n, g, q) ↦ subst Inv (sym q) (write_done-Inv n at g)
    ]

  -- In every pass the reads that are complete are full.
  abbrev pub AllFull : List Pass → Type 0
  AllFull [] = Unit {0}
  AllFull (p ∷ ps) = ((i : ℕ) (s : State) → FullRead (p.answer i s) (s.bufs i)) × AllFull ps

  pass-Inv :
      (left i : ℕ) (answer : ℕ → State → Answer) (s t : State)
      → i + left ≤ nbuf
      → ((i : ℕ) (s : State) → FullRead (answer i s) (s.bufs i))
      → Inv s
      → pass bsz size input left i answer s ≡ ok t
      → Inv t
  unfolding pass
  pass-Inv zero i answer s t le full inv e = subst Inv (ok-injective e) inv
  pass-Inv (suc left) i answer s t le full inv e =
      let (u, vu, pu) = then_pass-ok (visit bsz size input (s.bufs i).op i (answer i s) s) _ e in
      pass-Inv left (i + 1) answer u t (omega arith) full
        (visit-Inv i (omega arith) s inv (s.bufs i).op (answer i s) u refl (full i s) vu) pu

  -- The output file holds the translation of each byte of the input, and nothing else.
  abbrev pub Translated : State → Type 0
  Translated s =
      ((p : ℕ) → p < size → s.out p ≡ some (translate (input p)))
      × ((p : ℕ) → size ≤ p → s.out p ≡ none)

  done-Translated : (s : State) → Inv s → s.numop ≡ 0 → size ≤ s.off → Translated s
  done-Translated s inv idle all = (
    λ p lt. elim (inv.covered p (omega arith) lt) [
      | inl w ↦ w
      | inr (i, b) ↦ absurd (
          let busy = sum_to-of_mem nbuf i (λ k. pending_of (s.bufs k).op) b.0 in
          ground (arith, busy, inv.counted))
    ],
    λ p le. elim (Option-cases (s.out p)) [
      | inl q ↦ q
      | inr (v, q) ↦ absurd (omega (arith, (inv.right p v q).0))
    ],
  )

  pub start-Inv : Inv start
  start-Inv = record {
    covered = λ p lt inside. absurd (omega arith);
    right = λ p v q. cc;
    writing = λ i q. cc;
    written = λ i j q w. cc;
    counted = sym (sum_to-zero nbuf);
  }

  after_pass-cases :
      (resumed : Bool) (u t : State) (rest : Result (Option State))
      → then_loop (after_pass bsz size input resumed u) rest ≡ ok (some t)
      → ((t ≡ u) × (u.numop ≡ 0) × (size ≤ u.off)) ⊎ (rest ≡ ok (some t))
  unfolding after_pass
  after_pass-cases resumed u t rest e = ground arith

  main_loop-Translated :
      (ps : List Pass) (s t : State)
      → AllFull ps
      → Inv s
      → main_loop bsz size input nbuf ps s ≡ ok (some t)
      → Translated t
  unfolding main_loop after_pass
  main_loop-Translated [] s t full inv e = cc
  main_loop-Translated (p ∷ ps) s t full inv e =
      let (u, pu, lu) = then_pass-ok (pass bsz size input nbuf 0 p.answer s) _ e in
      let iu = pass-Inv nbuf 0 p.answer s u (omega arith) full.0 inv pu in
      elim (after_pass-cases p.resumed u t (main_loop bsz size input nbuf ps u) lu) [
        | inl (q, idle, all) ↦ subst Translated (sym q) (done-Translated u iu idle all)
        | inr on ↦ main_loop-Translated ps u t full.1 iu on
      ]

  -- A run of the program that ends its loop, in however many passes, has translated the file.
  pub rot13-Translated :
      (ps : List Pass) (t : State)
      → AllFull ps
      → main_loop bsz size input nbuf ps start ≡ ok (some t)
      → Translated t
  rot13-Translated ps t full e = main_loop-Translated ps start t full start-Inv e
