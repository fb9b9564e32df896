-- ===== src/Nice.antt =====
-- The counting for ten seconds of chapter_08/8.16.c. The readings of the clock and the replies of nice are
-- arguments; the loop of main takes one reading a turn.
mod Counting
mod Tests
use apue_note.Common.{
  ℕ, zero, suc, ◌+◌, ◌%◌, ◌^◌, ◌≡◌, Bool, true, false, ◌&&◌, ◌||◌, not, Option, none, some, List,
  [], ◌∷◌, ltb, leb, ◌==◌, if◌then◌else◌,
}

pub record Timeval : Type 0 where
  pub tv_sec : ℕ
  pub tv_usec : ℕ

-- The test of checktime against `end`
unfoldable pub checktime : Timeval → Timeval → Bool
checktime end tv = leb end.tv_sec tv.tv_sec && leb end.tv_usec tv.tv_usec

-- How a process ends: its status and the count that it prints, if it prints one; `running` has not ended
-- within the readings.
pub data Ended : Type 0 where
  running : ℕ → Ended
  ended : ℕ → Option ℕ → Ended

abbrev pub wrap : ℕ
wrap = 2 ^ 64

unfoldable pub count_loop : (end : Timeval) → List Timeval → (count : ℕ) → Ended
count_loop end [] count = running count
count_loop end (tv ∷ tvs) count =
    let next = (count + 1) % wrap in
    let rest = count_loop end tvs next in
    if next == 0 then ended 1 none else (if checktime end tv then ended 0 (some next) else rest)

-- What nice(adj) replies to the child: a value, or -1 with an errno
pub data Niced : Type 0 where
  now : ℕ → Niced
  minus_one : (errno : ℕ) → Niced

abbrev pub nice_works : Niced → Bool
nice_works (now n) = true
nice_works (minus_one errno) = errno == 0

-- main from the reading for `end` on: the child if fork gives it 0, else the parent
unfoldable pub main : (start : Timeval) → (forks child : Bool) → Niced → List Timeval → Ended
main start forks child niced tvs =
    let end : Timeval = record { tv_sec = start.tv_sec + 10; tv_usec = start.tv_usec } in
    let go = count_loop end tvs 0 in
    if not forks
    then ended 1 none
    else (if child && not (nice_works niced) then ended 1 none else go)
