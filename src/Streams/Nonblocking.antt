-- ===== src/Streams/Nonblocking.antt =====
-- The loop of chapter_14/14.2.c, which writes to a descriptor that may take a part, or nothing.
use apue_note.Common.{
  ℕ, zero, suc, ◌≤◌, ◌≡◌, refl, sym, ap, ◌∙◌, true, List, [], ◌∷◌, ◌++◌, arith, length, take, drop,
  ltb, length-drop,
}
use mathlib.Core.List.{append_assoc, append-nil}
use apue_note.Streams.{WriteReply, whole, short, write_failed, nonblocking_loop}

-- How many of the replies take at least a byte
abbrev pub progress : List WriteReply → ℕ
progress [] = 0
progress (whole ∷ rs) = suc (progress rs)
progress (short zero ∷ rs) = progress rs
progress (short (suc n) ∷ rs) = suc (progress rs)
progress (write_failed ∷ rs) = progress rs

drop-all : (xs : List ℕ) → drop (length xs) xs ≡ []
drop-all [] = refl
drop-all (x ∷ xs) = drop-all xs

-- A part that is taken, and the rest
take-append-rest : (n : ℕ) (xs : List ℕ) → take n xs ++ drop (length (take n xs)) xs ≡ xs
take-append-rest zero xs = refl
take-append-rest (suc n) [] = refl
take-append-rest (suc n) (x ∷ xs) = ap (λ l. x ∷ l) (take-append-rest n xs)

module _ (rs : List WriteReply) (b : ℕ) (bs out : List ℕ) where
  on_whole : nonblocking_loop (whole ∷ rs) (b ∷ bs) out ≡ nonblocking_loop rs [] (out ++ b ∷ bs)
  unfolding nonblocking_loop
  on_whole = let t : ltb 0 (suc (length bs)) ≡ true = ground arith in rw (t, drop-all bs) refl

  on_short :
      (n : ℕ)
      → nonblocking_loop (short (suc n) ∷ rs) (b ∷ bs) out
        ≡ nonblocking_loop rs (drop (length (take n bs)) bs) (out ++ b ∷ take n bs)
  unfolding nonblocking_loop
  on_short n = let t : ltb 0 (suc (length (take n bs))) ≡ true = ground arith in rw t refl

-- What is written and what is left make up the input, after every reply.
pub nonblocking_loop-conserves :
    (rs : List WriteReply) (todo out : List ℕ)
    → (nonblocking_loop rs todo out).1 ++ (nonblocking_loop rs todo out).0 ≡ out ++ todo
unfolding nonblocking_loop
nonblocking_loop-conserves [] todo out = refl
nonblocking_loop-conserves (r ∷ rs) [] out = refl
nonblocking_loop-conserves (whole ∷ rs) (b ∷ bs) out =
    rw (on_whole rs b bs out)
      (nonblocking_loop-conserves rs [] (out ++ b ∷ bs) ∙ append-nil (out ++ b ∷ bs))
nonblocking_loop-conserves (short zero ∷ rs) (b ∷ bs) out =
    nonblocking_loop-conserves rs (b ∷ bs) (out ++ []) ∙ ap (λ l. l ++ b ∷ bs) (append-nil out)
nonblocking_loop-conserves (short (suc n) ∷ rs) (b ∷ bs) out = rw (on_short rs b bs out n) (
    nonblocking_loop-conserves rs (drop (length (take n bs)) bs) (out ++ b ∷ take n bs)
    ∙ append_assoc out (b ∷ take n bs) (drop (length (take n bs)) bs)
    ∙ ap (λ xs. out ++ b ∷ xs) (take-append-rest n bs))
nonblocking_loop-conserves (write_failed ∷ rs) (b ∷ bs) out =
    nonblocking_loop-conserves rs (b ∷ bs) out

-- As many replies that take something as there are bytes are enough to leave nothing.
leaves-nothing :
    (rs : List WriteReply) (todo out : List ℕ)
    → length todo ≤ progress rs
    → (nonblocking_loop rs todo out).0 ≡ []
unfolding nonblocking_loop
leaves-nothing [] [] out h = refl
leaves-nothing [] (b ∷ bs) out h = absurd (omega arith)
leaves-nothing (r ∷ rs) [] out h = refl
leaves-nothing (whole ∷ rs) (b ∷ bs) out h =
    rw (on_whole rs b bs out) (leaves-nothing rs [] (out ++ b ∷ bs) (omega arith))
leaves-nothing (short zero ∷ rs) (b ∷ bs) out h = leaves-nothing rs (b ∷ bs) (out ++ []) h
leaves-nothing (short (suc n) ∷ rs) (b ∷ bs) out h = rw (on_short rs b bs out n) (
    leaves-nothing rs (drop (length (take n bs)) bs) (out ++ b ∷ take n bs)
      (omega (arith, length-drop (length (take n bs)) bs)))
leaves-nothing (write_failed ∷ rs) (b ∷ bs) out h = leaves-nothing rs (b ∷ bs) out h

-- As many replies that take something as there are bytes are enough to write them all.
pub nonblocking_loop-finishes :
    (rs : List WriteReply) (todo out : List ℕ)
    → length todo ≤ progress rs
    → ((nonblocking_loop rs todo out).0 ≡ []) × ((nonblocking_loop rs todo out).1 ≡ out ++ todo)
nonblocking_loop-finishes rs todo out h =
    let none_left = leaves-nothing rs todo out h in
    (
      none_left,
      sym (append-nil _)
          ∙ ap (λ l. (nonblocking_loop rs todo out).1 ++ l) (sym none_left)
          ∙ nonblocking_loop-conserves rs todo out,
    )
