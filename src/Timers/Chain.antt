-- ===== src/Timers/Chain.antt =====
-- The queue as a list of blocks: what `head` and the `next` fields of chapter_10/p5.c lead through.
use apue_note.Common.{ℕ, ◌≤◌, ◌≡◌, ◌≢◌, List, [], ◌∷◌, ltb, if◌then◌else◌, arith}
use apue_note.Timers.{Timer, null, write_next}

-- `p` occurs nowhere in a list of blocks.
abbrev pub Fresh : ℕ → List ℕ → Type 0
Fresh p [] = Unit {0}
Fresh p (q ∷ qs) = (p ≢ q) × Fresh p qs

-- From `p` the `next` fields lead through the distinct blocks `ps` to the null pointer.
abbrev pub Chain : (ℕ → Timer) → ℕ → List ℕ → Type 0
Chain mem p [] = p ≡ null
Chain mem p (q ∷ qs) = (p ≡ q) × (q ≢ null) × Fresh q qs × Chain mem (mem q).next qs

-- The deadlines, from `lo` on, do not fall.
abbrev pub IsSorted : (ℕ → Timer) → ℕ → List ℕ → Type 0
IsSorted mem lo [] = Unit {0}
IsSorted mem lo (p ∷ ps) = (lo ≤ (mem p).ended_at) × IsSorted mem (mem p).ended_at ps

-- Where a new block goes, behind the first one of the queue.
unfoldable pub place_behind : (ℕ → Timer) → ℕ → List ℕ → List ℕ
place_behind mem node [] = node ∷ []
place_behind mem node (q ∷ qs) =
    if ltb (mem q).ended_at (mem node).ended_at then q ∷ place_behind mem node qs else node ∷ q ∷ qs

-- Where a new block goes: in front of a later first block, and else behind it.
unfoldable pub place : (ℕ → Timer) → ℕ → List ℕ → List ℕ
unfolding place_behind
place mem node [] = node ∷ []
place mem node (p ∷ ps) =
    if ltb (mem node).ended_at (mem p).ended_at then node ∷ p ∷ ps else p ∷ place_behind mem node ps

pub Fresh-place_behind :
    (mem : ℕ → Timer) (node p : ℕ) (qs : List ℕ)
    → p ≢ node
    → Fresh p qs
    → Fresh p (place_behind mem node qs)
unfolding place_behind
Fresh-place_behind mem node p [] h f = (h, tt)
Fresh-place_behind mem node p (q ∷ qs) h f = ground (arith, Fresh-place_behind mem node p qs)

-- A chain survives a write to a block outside it.
pub Chain-write_next :
    (mem : ℕ → Timer) (a b p : ℕ) (qs : List ℕ)
    → Fresh a qs
    → Chain mem p qs
    → Chain (write_next a b mem) p qs
Chain-write_next mem a b p [] f c = c
Chain-write_next mem a b p (q ∷ qs) f c = ground (arith, Chain-write_next mem a b (mem q).next qs)

pub IsSorted-place_behind :
    (mem : ℕ → Timer) (node lo : ℕ) (qs : List ℕ)
    → lo ≤ (mem node).ended_at
    → IsSorted mem lo qs
    → IsSorted mem lo (place_behind mem node qs)
unfolding place_behind
IsSorted-place_behind mem node lo [] h s = (h, tt)
IsSorted-place_behind mem node lo (q ∷ qs) h s =
    ground (arith, IsSorted-place_behind mem node (mem q).ended_at qs)

pub IsSorted-place :
    (mem : ℕ → Timer) (node : ℕ) (ps : List ℕ)
    → IsSorted mem 0 ps
    → IsSorted mem 0 (place mem node ps)
unfolding place
IsSorted-place mem node [] s = omega arith
IsSorted-place mem node (p ∷ ps) s =
    ground (arith, IsSorted-place_behind mem node (mem p).ended_at ps)

-- The order looks at the deadlines alone.
pub IsSorted-of_deadlines :
    (mem mem' : ℕ → Timer) (lo : ℕ) (ps : List ℕ)
    → ((x : ℕ) → (mem' x).ended_at ≡ (mem x).ended_at)
    → IsSorted mem lo ps
    → IsSorted mem' lo ps
IsSorted-of_deadlines mem mem' lo [] same s = tt
IsSorted-of_deadlines mem mem' lo (p ∷ ps) same s =
    (rw (same p) s.0, rw (same p) (IsSorted-of_deadlines mem mem' (mem p).ended_at ps same s.1))
