-- ===== src/Common/Sums.antt =====
-- Families over the native numbers: a change at one index, and sums over the first `n` indices.
use Prim.Native.Nat.{ℕ, zero, suc, ◌+◌, ◌<◌, ◌≤◌}
use mathlib.Core.Path.{◌≡◌, refl}
use mathlib.Core.Logic.{◌≢◌}
use native.Mathlib.Decide.{dec_lt}
use native.Mathlib.Omega.{arith}
use apue_note.Common.Tests.{◌==◌, if◌then◌else◌}

abbrev pub update {ℓ} : {A : Type ℓ} → (ℕ → A) → ℕ → A → ℕ → A
update f i a j = if j == i then a else f j

unfoldable pub sum_to : ℕ → (ℕ → ℕ) → ℕ
sum_to zero f = 0
sum_to (suc n) f = sum_to n f + f n

pub sum_to-of_eq : (n : ℕ) (f g : ℕ → ℕ) → ((i : ℕ) → i < n → f i ≡ g i) → sum_to n f ≡ sum_to n g
unfolding sum_to
sum_to-of_eq zero f g same = refl
sum_to-of_eq (suc n) f g same =
    omega (arith, sum_to-of_eq n f g (λ i h. same i (omega arith)), same n (omega arith))

-- Two families that differ at one index.
pub sum_to-change :
    (n m : ℕ) (f g : ℕ → ℕ)
    → m < n
    → ((i : ℕ) → i ≢ m → f i ≡ g i)
    → sum_to n f + g m ≡ sum_to n g + f m
unfolding sum_to
sum_to-change zero m f g h same = absurd (omega arith)
sum_to-change (suc n) m f g h same = elim (dec_lt m n) [
  | yes below ↦ omega (arith, sum_to-change n m f g below same, same n (omega arith))
  | no above ↦
      let e : m ≡ n = omega arith in
      rw e (omega (arith, sum_to-of_eq n f g (λ i lt. same i (omega arith))))
]

pub sum_to-pos : (n : ℕ) (f : ℕ → ℕ) → 0 < sum_to n f → (i : ℕ) × (i < n) × (0 < f i)
unfolding sum_to
sum_to-pos zero f h = absurd (omega arith)
sum_to-pos (suc n) f h = elim (dec_lt 0 (f n)) [
  | yes here ↦ (n, omega arith, here)
  | no above ↦ let (i, lt, p) = sum_to-pos n f (omega arith) in (i, omega arith, p)
]

pub sum_to-le : (n : ℕ) (f g : ℕ → ℕ) → ((i : ℕ) → i < n → f i ≤ g i) → sum_to n f ≤ sum_to n g
unfolding sum_to
sum_to-le zero f g le = omega arith
sum_to-le (suc n) f g le =
    omega (arith, sum_to-le n f g (λ i h. le i (omega arith)), le n (omega arith))

pub sum_to-one : (n : ℕ) → sum_to n (λ _. 1) ≡ n
unfolding sum_to
sum_to-one zero = refl
sum_to-one (suc n) = omega (arith, sum_to-one n)

pub sum_to-full :
    (n : ℕ) (f : ℕ → ℕ) → ((i : ℕ) → f i ≤ 1) → n ≤ sum_to n f → (i : ℕ) → i < n → f i ≡ 1
unfolding sum_to
sum_to-full zero f small full i lt = absurd (omega arith)
sum_to-full (suc n) f small full i lt =
    let at_most = sum_to-le n f (λ _. 1) (λ j _. small j) in
    elim (dec_lt i n) [
      | yes below ↦ sum_to-full n f small (omega (arith, at_most, small n)) i below
      | no above ↦
          (let e : i ≡ n = omega arith in rw e (omega (arith, at_most, sum_to-one n, small n)))
    ]

pub sum_to-zero : (n : ℕ) → sum_to n (λ _. 0) ≡ 0
unfolding sum_to
sum_to-zero zero = refl
sum_to-zero (suc n) = omega (arith, sum_to-zero n)

-- A sum is no less than any one of its terms.
pub sum_to-of_mem : (n i : ℕ) (f : ℕ → ℕ) → i < n → f i ≤ sum_to n f
unfolding sum_to
sum_to-of_mem zero i f lt = absurd (omega arith)
sum_to-of_mem (suc n) i f lt = elim (dec_lt i n) [
  | yes below ↦ omega (arith, sum_to-of_mem n i f below)
  | no above ↦ let e : i ≡ n = omega arith in rw e (omega arith)
]
