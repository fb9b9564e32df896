-- ===== src/Rounds/Numbers.antt =====
-- That chapter_10/p6.c writes the numbers in order, and that its child never ends
use apue_note.Common.{ℕ, zero, suc, ◌+◌, ◌*◌, ◌%◌, ◌≤◌, ◌≡◌, Bool, true, false, List, [], ◌∷◌, ◌++◌}
use apue_note.Rounds.{
  Pc, installing, writing, telling, testing, suspended, resetting, restoring, ended, killed, Proc,
  System,
}

abbrev pub numbers : ℕ → List ℕ
numbers zero = []
numbers (suc n) = numbers n ++ (suc n ∷ [])

abbrev tok : Bool → ℕ
tok true = 1
tok false = 0

-- Signals that have come in a round, at its stage: `e` counts the one that the stage has used up.
abbrev taken : (e : Pc → ℕ) → Pc → (flag pending : Bool) → ℕ
taken e resetting flag pending = 1 + tok pending
taken e pc flag pending = e pc + tok flag + tok pending

abbrev used_child : Pc → ℕ
used_child restoring = 1
used_child other = 0

abbrev used_parent : Pc → ℕ
used_parent restoring = 1
used_parent writing = 1
used_parent telling = 1
used_parent other = 0

-- The stages behind the child's signal, and those behind each one's number
abbrev told : Pc → ℕ
told testing = 1
told suspended = 1
told resetting = 1
told restoring = 1
told other = 0

abbrev wrote_child : Pc → ℕ
wrote_child telling = 1
wrote_child pc = told pc

abbrev wrote_parent : Pc → ℕ
wrote_parent telling = 1
wrote_parent other = 0

abbrev over : Pc → ℕ
over ended = 1
over other = 0

abbrev limit : Pc → ℕ
limit ended = 1000
limit killed = 1000
limit other = 998

-- Only the first stage has no handler.
abbrev Handled : Pc → Bool → Type 0
Handled installing installed = ◌≡◌ {A = ℕ} 0 0
Handled ended installed = ◌≡◌ {A = ℕ} 0 0
Handled killed installed = ◌≡◌ {A = ℕ} 0 0
Handled other installed = installed ≡ true

module _ (cur : ℕ) where
  abbrev proc_at : Pc → (flag pending installed blocked : Bool) → Proc
  proc_at pc f q i b = record {
    pc = pc;
    cur = cur;
    sigflag = f;
    pending = q;
    installed = i;
    blocked = b;
  }

  -- What a signal does to its receiver
  abbrev Signalled : (e w : Pc → ℕ) → Pc → (f q : Bool) → Proc → Type 0
  Signalled e w pc f q p =
      (taken e p.pc p.sigflag p.pending ≤ taken e pc f q + 1)
      × (w p.pc ≡ w pc)
      × (limit pc ≤ limit p.pc)
      × Handled p.pc p.installed
      × (p.cur ≡ cur)

abbrev spent : (e : Pc → ℕ) → Proc → ℕ
spent e p = taken e p.pc p.sigflag p.pending

-- The child has used up no more signals than the parent has sent, and the parent no more than the child;
-- what has been written are the numbers from 1 on.
abbrev Inv : System → Type 0
Inv s =
    (s.child.cur + 2 * spent used_child s.child + 1 ≤ s.parent.cur)
    × (s.parent.cur + 2 * spent used_parent s.parent ≤ s.child.cur + 1 + 2 * told s.child.pc)
    × (s.parent.cur ≤ limit s.parent.pc)
    × (s.parent.cur % 2 ≡ 0)
    × (Handled s.child.pc s.child.installed × (over s.child.pc ≡ 0))
    × Handled s.parent.pc s.parent.installed
    × ((n : ℕ) × (s.out ≡ numbers n)
        × (2 * n + 3
            ≡ s.child.cur
              + s.parent.cur
              + 2 * wrote_child s.child.pc
              + 2 * wrote_parent s.parent.pc))

module _ (p : Proc) (out : List ℕ) (cur : ℕ) (i b : Bool) where
  abbrev child_at : Pc → (f q : Bool) → System
  child_at pc f q = record { child = proc_at cur pc f q i b; parent = p; out = out }

module _ (c : Proc) (out : List ℕ) (cur : ℕ) (i b : Bool) where
  abbrev parent_at : Pc → (f q : Bool) → System
  parent_at pc f q = record { child = c; parent = proc_at cur pc f q i b; out = out }
