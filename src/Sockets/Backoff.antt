-- ===== src/Sockets/Backoff.antt =====
-- The rounds of connect_retry of chapter_16/16-16.c
use apue_note.Common.{
  ℕ, zero, suc, ◌+◌, ◌-◌, ◌*◌, ◌≤◌, ◌≡◌, refl, ap, ◌∙◌, inl, inr, true, false, Bool-cases, Option,
  none, some, List, [], ◌∷◌, ◌++◌, leb, arith,
}
use apue_note.Sockets.{
  Reply, done, fails, Net, close, opened, failed, sleep, Attempt, maxsleep, Retried, out_of_fuel,
  gave, connected, connect_loop, connect_retry,
}
use apue_note.Sockets.Leaks.{remove-head}

abbrev pub good : Reply ℕ → Reply (Unit {0}) → Option ℕ → Option ℕ
good (fails e) c rest = none
good (done fd) (done u) rest = some fd
good (done fd) (fails e) rest = rest

-- The descriptor that the first good round of some rounds gives; a failure of socket ends them.
unfoldable pub first_good : (ℕ → Attempt) → (rounds round : ℕ) → Option ℕ
first_good at zero round = none
first_good at (suc rounds) round =
    good (at round).make (at round).connect (first_good at rounds (round + 1))

abbrev pub total : List ℕ → ℕ
total [] = 0
total (x ∷ xs) = x + total xs

total-append : (xs : List ℕ) (n : ℕ) → total (xs ++ n ∷ []) ≡ total xs + n
total-append [] n = omega arith
total-append (x ∷ xs) n = omega (arith, total-append xs n)

abbrev pub with_fd : Option ℕ → List ℕ → List ℕ
with_fd none fds = fds
with_fd (some fd) fds = fd ∷ fds

-- It has not run out of fuel; the result is r, the only descriptor that is left open; and the calls of
-- sleep have added `more` seconds at most.
abbrev pub Gave : Option ℕ → ℕ → Net → Retried → Type 0
Gave r more w out_of_fuel = ⊥
Gave r more w (gave r1 w1) =
    (r1 ≡ r) × (w1.fds ≡ with_fd r w.fds) × (total w1.slept ≤ total w.slept + more)

abbrev two_to : ℕ → ℕ
two_to zero = 1
two_to (suc n) = two_to n * 2

two_to-pos : (n : ℕ) → 1 ≤ two_to n
two_to-pos zero = omega arith
two_to-pos (suc n) = omega (arith, two_to-pos n)

bounded : (a b : ℕ) → a * b ≡ 256 → 1 ≤ b → a ≤ 256
bounded a b h l = grind arith

Gave-from :
    (r : Option ℕ) (a b : ℕ) (v w : Net) (x : Retried)
    → v.fds ≡ w.fds
    → total v.slept + a ≤ total w.slept + b
    → Gave r a v x
    → Gave r b w x
Gave-from r a b v w out_of_fuel e l h = absurd h
Gave-from r a b v w (gave r1 w1) e l h = (h.0, h.1 ∙ ap (with_fd r) e, omega (arith, h.2))

connected-Gave :
    (c : Reply (Unit {0})) (m : Reply ℕ) (shut : ℕ → ℕ) (numsec : ℕ) (w : Net)
    (next : Net → Retried) (rest : Option ℕ)
    → numsec ≤ 128
    → ((w1 : Net) → Gave rest (128 - numsec * 2) w1 (next w1))
    → Gave (good m c rest) (128 - numsec) w (connected c m shut numsec w next)
unfolding close opened
connected-Gave c (fails e) shut numsec w next rest l h = (refl, refl, omega arith)
connected-Gave (done u) (done fd) shut numsec w next rest l h = (refl, refl, omega arith)
connected-Gave (fails e) (done fd) shut numsec w next rest l h =
    let w1 : Net = close shut fd (failed e (opened fd w)) in
    elim (Bool-cases (leb numsec 64)) [
      | inl t ↦ rw t (
          Gave-from rest _ _ (sleep numsec w1) w (next (sleep numsec w1)) (remove-head fd w.fds)
            (let l1 = total-append w.slept numsec in ground arith) (h (sleep numsec w1)))
      | inr t ↦
          rw t (Gave-from rest _ _ w1 w (next w1) (remove-head fd w.fds) (ground arith) (h w1))
    ]

connect_loop-Gave :
    (at : ℕ → Attempt) (rounds numsec round : ℕ) (w : Net)
    → numsec * two_to rounds ≡ 256
    → Gave (first_good at rounds round) (128 - numsec) w (connect_loop at rounds numsec round w)
unfolding connect_loop first_good
connect_loop-Gave at zero numsec round w h = rw (Bool-not_leb numsec h) (refl, refl, omega arith)
  where
    Bool-not_leb : (n : ℕ) → n * 1 ≡ 256 → leb n 128 ≡ false
    Bool-not_leb n h = ground arith
connect_loop-Gave at (suc rounds) numsec round w h =
    let p = two_to-pos rounds in
    let l = bounded (numsec * 2) (two_to rounds) (grind arith) p in
    let t : leb numsec maxsleep ≡ true = ground arith in
    rw t (
      connected-Gave (at round).connect (at round).make (at round).shut numsec w _
        (first_good at rounds (round + 1)) (omega arith)
        (λ w1. connect_loop-Gave at rounds (numsec * 2) (round + 1) w1 (grind arith)))

-- The eight rounds of connect_retry are all that its loop makes: it gives the descriptor of the first
-- round in which connect succeeds, if socket fails in none up to it, and else -1; no other descriptor is
-- left open; and it sleeps 127 seconds at most.
pub connect_retry-Gave :
    (at : ℕ → Attempt) (w : Net) → Gave (first_good at 8 0) 127 w (connect_retry at w)
unfolding connect_retry
connect_retry-Gave at w = connect_loop-Gave at 8 1 0 w refl
