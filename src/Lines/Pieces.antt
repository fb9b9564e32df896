-- ===== src/Lines/Pieces.antt =====
-- What fgets takes from its input
use apue_note.Common.{
  ℕ, zero, suc, ◌≤◌, ◌<◌, ◌≡◌, ◌≢◌, refl, ap, Bool-cases, inl, inr, false, List, [], ◌∷◌, ◌++◌,
  ◌==◌, length, arith,
}
use apue_note.Lines.{piece, c_string}

-- No byte of the list is `b`.
abbrev pub Free : ℕ → List ℕ → Type 0
Free b [] = ◌≡◌ {A = ℕ} 0 0
Free b (c ∷ cs) = (c ≢ b) × Free b cs

pub piece-whole : (room : ℕ) (input : List ℕ) → (piece room input).0 ++ (piece room input).1 ≡ input
unfolding piece
piece-whole zero input = refl
piece-whole (suc room) [] = refl
piece-whole (suc room) (c ∷ cs) = elim (Bool-cases (c == b'\n')) [
  | inl e ↦ rw e refl
  | inr e ↦ rw e (ap (c ∷◌) (piece-whole room cs))
]

pub piece-shorter : (room c : ℕ) (cs : List ℕ) → length (piece (suc room) (c ∷ cs)).1 ≤ length cs
unfolding piece
piece-shorter room c cs = elim (Bool-cases (c == b'\n')) [
  | inl e ↦ rw e (omega arith)
  | inr e ↦ rw e (no_longer room cs)
]
  where
    no_longer : (room : ℕ) (cs : List ℕ) → length (piece room cs).1 ≤ length cs
    no_longer zero cs = omega arith
    no_longer (suc room) [] = omega arith
    no_longer (suc room) (c ∷ cs) = elim (Bool-cases (c == b'\n')) [
      | inl e ↦ rw e (omega arith)
      | inr e ↦ rw e (omega (arith, no_longer room cs))
    ]

pub c_string-Free : (cs : List ℕ) → Free 0 cs → c_string cs ≡ cs
unfolding c_string
c_string-Free [] free = refl
c_string-Free (c ∷ cs) (other, free) =
    let e : (c == 0) ≡ false = ground arith in rw e (ap (c ∷◌) (c_string-Free cs free))

pub Free-append : (b : ℕ) (xs ys : List ℕ) → Free b (xs ++ ys) → Free b xs × Free b ys
Free-append b [] ys free = (refl, free)
Free-append b (x ∷ xs) ys (other, free) = let (f, g) = Free-append b xs ys free in ((other, f), g)

-- A line that fits, with its newline
pub piece-line :
    (line rest : List ℕ) (room : ℕ)
    → Free b'\n' line
    → length line < room
    → piece room (line ++ (b'\n' ∷ rest)) ≡ (line ++ (b'\n' ∷ []), rest)
unfolding piece
piece-line [] rest zero free lt = absurd (omega arith)
piece-line [] rest (suc room) free lt = refl
piece-line (c ∷ cs) rest zero free lt = absurd (omega arith)
piece-line (c ∷ cs) rest (suc room) (other, free) lt =
    let e : (c == b'\n') ≡ false = ground arith in
    rw e (ap (λ (p, q). (c ∷ p, q)) (piece-line cs rest room free (omega arith)))
