-- ===== src/Sort/Tests.antt =====
-- Runs of chapter_11/11.6.8.c with two threads and parts of two numbers.
use apue_note.Common.{
  ℕ, ◌+◌, ◌*◌, ◌<◌, ◌≤◌, ◌≡◌, ◌≢◌, ◌⊎◌, refl, [], ◌∷◌, ltb, ◌==◌, if◌then◌else◌, arith,
}
use apue_note.Sort.{complong, greater, merge}
use apue_note.Sort.Merge.{count, count_from, IsSorted}
use apue_note.Sort.Barrier.{
  Heapsort, begin, next, create, sort_part, main_waits, release, merge_parts,
}
use apue_note.Sort.Joined.{merged-IsSorted}

-- Two parts, 3 8 and 1 9
abbrev parts : ℕ → ℕ
parts i = if i == 0 then 3 else if i == 1 then 8 else if i == 2 then 1 else 9

merge_runs : merge 2 parts 2 7 ≡ 1 ∷ 3 ∷ 8 ∷ 9 ∷ []
unfolding merge
merge_runs = refl

-- Sorts two numbers.
sort_two : (base : ℕ) → (ℕ → ℕ) → ℕ → ℕ
sort_two base f i =
    if i == base
    then (if ltb (f (base + 1)) (f base) then f (base + 1) else f base)
    else if i == base + 1
    then (if ltb (f (base + 1)) (f base) then f base else f (base + 1))
    else f i

sort_two-ordered :
    (base : ℕ) (f : ℕ → ℕ) (i j : ℕ)
    → base ≤ i
    → i ≤ j
    → j < base + 2
    → complong (sort_two base f i) (sort_two base f j) ≢ greater
unfolding sort_two complong
sort_two-ordered base f i j a b c = ground arith

sort_two-outside :
    (base : ℕ) (f : ℕ → ℕ) (i : ℕ) → (i < base) ⊎ (base + 2 ≤ i) → sort_two base f i ≡ f i
unfolding sort_two
sort_two-outside base f i out = ground arith

sort_two-count :
    (base : ℕ) (f : ℕ → ℕ) (x : ℕ) → count_from (sort_two base f) x base 2 ≡ count_from f x base 2
unfolding sort_two count_from
sort_two-count base f x = ground arith

abbrev heapsort_two : Heapsort 2
heapsort_two = record {
  sort = sort_two;
  ordered = sort_two-ordered;
  outside = sort_two-outside;
  same_numbers = sort_two-count;
}

-- 8 3 and 9 1
abbrev mixed : ℕ → ℕ
mixed i = if i == 0 then 8 else if i == 1 then 3 else if i == 2 then 9 else 1

abbrev sorted_mixed : ℕ → ℕ
sorted_mixed = sort_two (1 * 2) (sort_two (0 * 2) mixed)

merged-IsSorted_example :
    IsSorted 0 (merge 2 sorted_mixed 2 0)
    × ((x : ℕ) → count x (merge 2 sorted_mixed 2 0) ≡ count_from mixed x 0 (2 * 2))
merged-IsSorted_example =
    merged-IsSorted 2 2 heapsort_two mixed (λ i a lt le lt'. ground arith)
      (next
        (next
          (next
            (next
              (next (next (next begin (create refl (omega arith))) (create refl (omega arith)))
                (sort_part 0 refl))
              (main_waits refl refl))
            (sort_part 1 refl))
          (release refl refl))
        (merge_parts 0 refl))
      refl
