-- ===== src/Copies/Mapped.antt =====
-- The copy by mapped memory of chapter_14/14.8.c
use apue_note.Common.{
  ℕ, zero, suc, ◌+◌, ◌-◌, ◌*◌, ◌<◌, ◌≤◌, ◌≡◌, refl, sym, ap, ◌∙◌, ◌⊎◌, inl, inr, Bool-cases, Bool,
  true, false, List, [], ◌∷◌, ◌++◌, length, take, drop, ltb, arith, length-append, length-take,
  length-drop,
}
use apue_note.Copies.{
  zeros, copyincr, copysz, memcpy, Mapping, no_fuel, ends, map_loop, main_mapped,
}

take-nil : (n : ℕ) → take {A = ℕ} n [] ≡ []
take-nil zero = refl
take-nil (suc n) = refl

take_add : (a c : ℕ) (xs : List ℕ) → take (a + c) xs ≡ take a xs ++ take c (drop a xs)
take_add zero c xs = let e : 0 + c ≡ c = omega arith in ap (λ n. take n xs) e
take_add (suc a) c [] = take-nil (suc a + c) ∙ sym (take-nil c)
take_add (suc a) c (x ∷ xs) =
    let e : suc a + c ≡ suc (a + c) = omega arith in
    ap (λ n. take n (x ∷ xs)) e ∙ ap (λ ys. x ∷ ys) (take_add a c xs)

take-append_length : (xs ys : List ℕ) → take (length xs) (xs ++ ys) ≡ xs
take-append_length [] ys = refl
take-append_length (x ∷ xs) ys = ap (λ zs. x ∷ zs) (take-append_length xs ys)

take-length : (xs : List ℕ) → take (length xs) xs ≡ xs
take-length [] = refl
take-length (x ∷ xs) = ap (λ zs. x ∷ zs) (take-length xs)

length-zeros : (n : ℕ) → length (zeros n) ≡ n
length-zeros zero = refl
length-zeros (suc n) = ap suc (length-zeros n)

-- What has been copied: the first fsz bytes, in a file of the same size
abbrev Copied : ℕ → List ℕ → List ℕ → Type 0
Copied fsz src dst = (take fsz dst ≡ take fsz src) × (length dst ≡ length src)

memcpy-Copied :
    (fsz size : ℕ) (src dst : List ℕ)
    → fsz + size ≤ length src
    → Copied fsz src dst
    → Copied (fsz + size) src (memcpy fsz size src dst)
unfolding memcpy
memcpy-Copied fsz size src dst l (c, d) =
    let a = take fsz dst in
    let b = take size (drop fsz src) in
    let e = drop (fsz + size) dst in
    let la = length-take fsz dst (omega arith) in
    let ld = length-drop fsz src in
    let lb = length-take size (drop fsz src) (omega arith) in
    let le = length-drop (fsz + size) dst in
    let lab = length-append a b in
    let n : length (a ++ b) ≡ fsz + size = omega arith in
    (
      ap (λ k. take k (a ++ b ++ e)) (sym n)
          ∙ take-append_length (a ++ b) e
          ∙ ap (λ xs. xs ++ b) c
          ∙ sym (take_add fsz size src),
      omega (arith, length-append (a ++ b) e),
    )

all-Copied : (fsz : ℕ) (src dst : List ℕ) → fsz ≡ length src → Copied fsz src dst → dst ≡ src
all-Copied fsz src dst e (c, d) =
    sym (take-length dst)
    ∙ ap (λ k. take k dst) (d ∙ sym e)
    ∙ c
    ∙ ap (λ k. take k src) e
    ∙ take-length src

copysz_lem :
    (incr left : ℕ)
    → (copysz incr left ≤ left) × ((copysz incr left ≡ incr) ⊎ (copysz incr left ≡ left))
copysz_lem incr left = ground arith

mul_suc : (fuel incr : ℕ) → suc fuel * incr ≡ incr + fuel * incr
mul_suc fuel incr = grind arith

module _ (incr : ℕ) (maps_in maps_out : ℕ → Bool) (src : List ℕ) where
  -- How the loop may end: by status 0 with a copy of the file, or by status 1 if a mapping fails
  abbrev pub Right : Mapping → Type 0
  Right no_fuel = ⊥
  Right (ends n dst) =
      ((n ≡ 0) × (dst ≡ src))
      ⊎ ((n ≡ 1)
          × ((fsz : ℕ) × (fsz < length src) × ((maps_in fsz ≡ false) ⊎ (maps_out fsz ≡ false))))

  map_loop-Right :
      (fuel fsz : ℕ) (dst : List ℕ)
      → 0 < incr
      → length src ≤ fsz + fuel * incr
      → fsz ≤ length src
      → Copied fsz src dst
      → Right (map_loop incr maps_in maps_out src fuel fsz dst)
  unfolding map_loop
  map_loop-Right zero fsz dst pos enough l c = elim (Bool-cases (ltb fsz (length src))) [
    | inl t ↦ absurd (ground arith)
    | inr f ↦ rw f (inl (refl, all-Copied fsz src dst (ground arith) c))
  ]
  map_loop-Right (suc fuel) fsz dst pos enough l c = elim (Bool-cases (ltb fsz (length src))) [
    | inr f ↦ rw f (inl (refl, all-Copied fsz src dst (ground arith) c))
    | inl t ↦ elim (Bool-cases (maps_in fsz)) [
      | inr f ↦ rw (t, f) (inr (refl, (fsz, ground arith, inl f)))
      | inl g ↦ elim (Bool-cases (maps_out fsz)) [
        | inr f ↦ rw (t, g, f) (inr (refl, (fsz, ground arith, inr f)))
        | inl h ↦
            rw (t, g, h)
              (let size = copysz incr (length src - fsz) in
                let k = copysz_lem incr (length src - fsz) in
                let m = mul_suc fuel incr in
                let less : fsz + size ≤ length src = omega (arith, k.0) in
                let enough1 : length src ≤ fsz + size + fuel * incr = omega (arith, k.1) in
                map_loop-Right fuel (fsz + size) (memcpy fsz size src dst) pos enough1 less
                  (memcpy-Copied fsz size src dst less c))
      ]
    ]
  ]

-- Once both files are open and the output has the size of the input, main of 14.8.c ends with status 0
-- and an output equal to the input, or with status 1 because a mapping of a part within the input has
-- failed; as many turns as the size over COPYINCR, rounded up, are enough.
pub main_mapped-Right :
    (maps_in maps_out : ℕ → Bool) (src : List ℕ) (fuel : ℕ)
    → length src ≤ fuel * copyincr
    → Right copyincr maps_in maps_out src
        (main_mapped true true true true maps_in maps_out src fuel)
unfolding main_mapped
main_mapped-Right maps_in maps_out src fuel enough =
    map_loop-Right copyincr maps_in maps_out src fuel 0 (zeros (length src)) (omega arith)
      (omega arith) (omega arith) (refl, length-zeros (length src))
