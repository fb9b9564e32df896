-- ===== src/Sort.antt =====
-- chapter_11/11.6.8.c: threads sort the parts of an array, and `merge` joins the parts. The number of
-- threads and the size of a part, NTHR and TNUM, are parameters. A `long` stands for its value plus
-- 2 ^ 63, so that the order of longs is that of the numbers.
pub mod Order
pub mod Pick
pub mod Merge
pub mod Barrier
pub mod Joined
mod Tests
use apue_note.Common.{
  ℕ, zero, suc, ◌+◌, ◌-◌, ◌*◌, ◌^◌, Bool, ◌&&◌, List, [], ◌∷◌, ltb, ◌==◌, if◌then◌else◌, update,
}

abbrev pub long_max : ℕ
long_max = 2 ^ 64 - 1

-- -1, 0 and 1
pub data Compared : Type 0 where
  less equal greater : Compared

unfoldable pub complong : ℕ → ℕ → Compared
complong l1 l2 = if l1 == l2 then equal else if ltb l1 l2 then less else greater

module _ (tnum : ℕ) (nums : ℕ → ℕ) where
  -- The inner loop of `merge`, with `left` rounds left from the part `i` on.
  unfoldable pub pick : (left i : ℕ) (idx : ℕ → ℕ) (num minidx : ℕ) → ℕ × ℕ
  pick zero i idx num minidx = (num, minidx)
  pick (suc left) i idx num minidx =
      let taken = ltb (idx i) ((i + 1) * tnum) && ltb (nums (idx i)) num in
      pick left (i + 1) idx (if taken then nums (idx i) else num) (if taken then i else minidx)

  -- The outer loop, with `left` numbers to go; the result is the rest of `snums`.
  unfoldable pub merge_loop : (nthr left : ℕ) (idx : ℕ → ℕ) (minidx : ℕ) → List ℕ
  merge_loop nthr zero idx minidx = []
  merge_loop nthr (suc left) idx minidx =
      let m = (pick nthr 0 idx long_max minidx).1 in
      nums (idx m) ∷ merge_loop nthr left (update idx m (idx m + 1)) m

  -- `minidx` is not initialised: it holds `junk`.
  unfoldable pub merge : (nthr junk : ℕ) → List ℕ
  unfolding pick merge_loop
  merge nthr junk = merge_loop nthr (nthr * tnum) (λ i. i * tnum) junk
