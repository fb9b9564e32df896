-- ===== src/Sort/Order.antt =====
-- The comparison function of chapter_11/11.6.8.c is a total order, as `heapsort` wants it.
use apue_note.Common.{ℕ, ◌≤◌, ◌≡◌, ◌≢◌, ◌↔◌, arith}
use apue_note.Sort.{Compared, less, equal, greater, complong}

abbrev pub opposite : Compared → Compared
opposite less = greater
opposite equal = equal
opposite greater = less

-- Swapping the arguments negates the result, and "not greater" is the order of the longs.
pub complong_total :
    (a b : ℕ) → (complong b a ≡ opposite (complong a b)) × ((complong a b ≢ greater) ↔ (a ≤ b))
unfolding complong
complong_total a b = ground arith
