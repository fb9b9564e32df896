-- ===== src/Sort/Pick.antt =====
-- The inner loop of `merge` in chapter_11/11.6.8.c picks a least first number of the parts.
use apue_note.Common.{
  ℕ, zero, suc, ◌+◌, ◌*◌, ◌<◌, ◌≤◌, ◌≡◌, ◌⊎◌, inl, inr, refl, ◌&&◌, ltb, Bool-cases, arith,
}
use apue_note.Sort.{pick}

module _ (tnum : ℕ) (nums : ℕ → ℕ) (idx : ℕ → ℕ) where
  -- The part `j` has a number left.
  abbrev pub Open : ℕ → Type 0
  Open j = idx j < (j + 1) * tnum

  -- `r` is the initial pair, or the first number of an open part.
  pub record Picked (i n num minidx : ℕ) (r : ℕ × ℕ) : Type 0 where
    pub kept : ((r.0 ≡ num) × (r.1 ≡ minidx)) ⊎ ((r.1 < n) × Open r.1 × (r.0 ≡ nums (idx r.1)))
    pub le_num : r.0 ≤ num
    pub least : (j : ℕ) → i ≤ j → j < n → Open j → r.0 ≤ nums (idx j)

  pub pick-Picked :
      (left i n num minidx : ℕ)
      → i + left ≡ n
      → Picked i n num minidx (pick tnum nums left i idx num minidx)
  unfolding pick
  pick-Picked zero i n num minidx e = record {
    kept = inl (refl, refl);
    le_num = omega arith;
    least = λ j a b o. absurd (omega arith);
  }
  pick-Picked (suc left) i n num minidx e =
      elim (Bool-cases (ltb (idx i) ((i + 1) * tnum) && ltb (nums (idx i)) num)) [
        | inl t ↦
            (let r = pick-Picked left (i + 1) n (nums (idx i)) i (omega arith) in
              rw t (record {
                kept = ground (arith, r.kept);
                le_num = ground (arith, r.le_num);
                least = λ j a b o. ground (arith, r.least j, r.le_num);
              }))
        | inr f ↦
            (let r = pick-Picked left (i + 1) n num minidx (omega arith) in
              rw f (record {
                kept = r.kept;
                le_num = r.le_num;
                least = λ j a b o. ground (arith, r.least j, r.le_num);
              }))
      ]
