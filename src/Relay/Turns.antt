-- ===== src/Relay/Turns.antt =====
-- chapter_15/15.9.2.c: the two processes take turns, and each finds the count that it expects.
use apue_note.Common.{ℕ, ◌+◌, ◌≡◌, ◌≢◌, refl, Bool, true, false, some, arith}
use apue_note.Relay.{
  Pc, updating, telling, clearing, restoring, finished, failed, parent, child, System, Event, runs,
  gets_signal, go_parent, go_child, step, start, Reach, begin, next,
}

abbrev pub bit : Bool → ℕ
bit true = 1
bit false = 0

-- The turn is the parent's, or on its way to it.
abbrev pub has_turn_parent : Pc → ℕ
has_turn_parent updating = 1
has_turn_parent restoring = 1
has_turn_parent finished = 1
has_turn_parent _ = 0

abbrev pub has_turn_child : Pc → ℕ
has_turn_child updating = 1
has_turn_child restoring = 1
has_turn_child _ = 0

abbrev pub tells : Pc → ℕ
tells telling = 1
tells _ = 0

abbrev pub toward_parent : System → ℕ
toward_parent s =
    tells s.child.pc + bit s.parent.pending + bit s.parent.sigflag + has_turn_parent s.parent.pc

abbrev pub toward_child : System → ℕ
toward_child s =
    tells s.parent.pc + bit s.child.pending + bit s.child.sigflag + has_turn_child s.child.pc

-- The count that a process expects at its next update.
abbrev pub expects_parent : Pc → ℕ → ℕ
expects_parent updating i = i
expects_parent finished i = i
expects_parent _ i = i + 2

abbrev pub expects_child : Pc → ℕ → ℕ
expects_child telling i = i + 2
expects_child _ i = i

pub record Inv (s : System) : Type 0 where
  pub one_turn : toward_parent s + toward_child s ≡ 1
  pub parent_next :
      toward_parent s ≡ 1
      → (expects_parent s.parent.pc s.parent.i ≡ s.area)
        × (expects_child s.child.pc s.child.i ≡ s.area + 1)
  pub child_next :
      toward_child s ≡ 1
      → (expects_child s.child.pc s.child.i ≡ s.area)
        × (expects_parent s.parent.pc s.parent.i ≡ s.area + 1)
  pub parent_clears : s.parent.pc ≡ clearing → s.parent.sigflag ≡ true
  pub child_clears : s.child.pc ≡ clearing → s.child.sigflag ≡ true
  pub parent_works : s.parent.pc ≢ failed
  pub child_works : s.child.pc ≢ failed

module _ (nloops : ℕ) where
  go_parent-Inv :
      (pc : Pc) (s t : System) → s.parent.pc ≡ pc → go_parent nloops pc s ≡ some t → Inv s → Inv t
  unfolding go_parent
  go_parent-Inv updating s t e st inv = ground arith
  go_parent-Inv telling s t e st inv = ground arith
  go_parent-Inv _ s t e st inv = ground arith

  go_child-Inv :
      (pc : Pc) (s t : System) → s.child.pc ≡ pc → go_child nloops pc s ≡ some t → Inv s → Inv t
  unfolding go_child
  go_child-Inv updating s t e st inv = ground arith
  go_child-Inv _ s t e st inv = ground arith

  deliver_parent-Inv : (s t : System) → step nloops (gets_signal parent) s ≡ some t → Inv s → Inv t
  unfolding step
  deliver_parent-Inv s t st inv = ground arith

  deliver_child-Inv : (s t : System) → step nloops (gets_signal child) s ≡ some t → Inv s → Inv t
  unfolding step
  deliver_child-Inv s t st inv = ground arith

  step-Inv : (e : Event) (s t : System) → step nloops e s ≡ some t → Inv s → Inv t
  unfolding step
  step-Inv (runs parent) s t st inv = go_parent-Inv s.parent.pc s t refl st inv
  step-Inv (runs child) s t st inv = go_child-Inv s.child.pc s t refl st inv
  step-Inv (gets_signal parent) s t st inv = deliver_parent-Inv s t st inv
  step-Inv (gets_signal child) s t st inv = deliver_child-Inv s t st inv

  start-Inv : Inv (start nloops)
  unfolding start
  start-Inv = ground arith

  pub Reach-Inv : {s : System} → Reach nloops s → Inv s
  Reach-Inv begin = start-Inv
  Reach-Inv (next {s} {t} e r st) = step-Inv e s t st (Reach-Inv r)

  -- In every interleaving no process ends with "expected … got", and the two never update together.
  pub never_fails :
      {s : System}
      → Reach nloops s
      → (s.parent.pc ≢ failed)
        × (s.child.pc ≢ failed)
        × (s.parent.pc ≡ updating → s.child.pc ≢ updating)
  never_fails {s} r = let inv = Reach-Inv r in ground (arith, inv.one_turn)

  -- A process that updates finds in the area what its loop has counted to.
  pub finds_count :
      {s : System}
      → Reach nloops s
      → (s.parent.pc ≡ updating → s.area ≡ s.parent.i)
        × (s.child.pc ≡ updating → s.area ≡ s.child.i)
  finds_count {s} r = let inv = Reach-Inv r in ground (arith, inv.one_turn)
