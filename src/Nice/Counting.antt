-- ===== src/Nice/Counting.antt =====
-- When the processes of chapter_08/8.16.c stop
use apue_note.Common.{
  ℕ, suc, ◌+◌, ◌*◌, ◌%◌, ◌<◌, ◌≡◌, refl, ap, ◌∙◌, ◌⊎◌, inl, inr, Bool-cases, Bool, true, false,
  ◌&&◌, ◌||◌, Option, none, some, List, [], ◌∷◌, ltb, leb, ◌==◌, length, if◌then◌else◌, arith,
}
use apue_note.Nice.{
  Timeval, checktime, Ended, running, ended, wrap, count_loop, Niced, nice_works, main,
}

abbrev pub micros : Timeval → ℕ
micros t = t.tv_sec * 1000000 + t.tv_usec

abbrev pub Normal : Timeval → Type 0
Normal t = t.tv_usec < 1000000

-- For normal times, checktime ends no process early; and it overlooks a time that is not before the end
-- exactly if the microseconds alone are fewer than those of the end.
pub checktime-micros :
    (end tv : Timeval)
    → Normal end
    → Normal tv
    → leb (micros end) (micros tv)
      ≡ (checktime end tv || (ltb end.tv_sec tv.tv_sec && ltb tv.tv_usec end.tv_usec))
unfolding checktime
checktime-micros end tv h k = ground arith

abbrev pub one_more : Option ℕ → Option ℕ
one_more none = none
one_more (some n) = some (n + 1)

-- The number of readings up to the first at which checktime ends the process
abbrev pub first_end : Timeval → List Timeval → Option ℕ
first_end end [] = none
first_end end (tv ∷ tvs) =
    let rest = first_end end tvs in if checktime end tv then some 1 else one_more rest

abbrev pub stops : (count turns : ℕ) → Option ℕ → Ended
stops count turns none = running (count + turns)
stops count turns (some n) = ended 0 (some (count + n))

stops-one_more :
    (count turns : ℕ) (r : Option ℕ)
    → stops (count + 1) turns r ≡ stops count (suc turns) (one_more r)
stops-one_more count turns none = ap running (omega arith)
stops-one_more count turns (some n) = ap (λ k. ended 0 (some k)) (omega arith)

count_loop-stops :
    (end : Timeval) (tvs : List Timeval) (count : ℕ)
    → count + length tvs < wrap
    → count_loop end tvs count ≡ stops count (length tvs) (first_end end tvs)
unfolding count_loop
count_loop-stops end [] count h = ap running (omega arith)
count_loop-stops end (tv ∷ tvs) count h =
    let m : (count + 1) % wrap ≡ count + 1 = omega arith in
    let z : (count + 1 == 0) ≡ false = ground arith in
    rw (m, z)
      (elim (Bool-cases (checktime end tv)) [
        | inl t ↦ rw t refl
        | inr f ↦ rw f (
            count_loop-stops end tvs (count + 1) (omega arith)
            ∙ stops-one_more count (length tvs) (first_end end tvs))
      ])

-- If fork works, and in the child nice too, a process that makes fewer than 2 ^ 64 turns ends with status 0
-- at the first turn whose reading checktime takes for the end of ten seconds, and prints the number of its
-- turns; there is no such reading exactly if it is still running after all of them.
pub main-stops :
    (start : Timeval) (child : Bool) (niced : Niced) (tvs : List Timeval)
    → (child ≡ false) ⊎ (nice_works niced ≡ true)
    → length tvs < wrap
    → main start true child niced tvs
      ≡ stops 0
          (length tvs)
          (first_end (record { tv_sec = start.tv_sec + 10; tv_usec = start.tv_usec }) tvs)
unfolding main
main-stops start false niced tvs w h = count_loop-stops _ tvs 0 (omega arith)
main-stops start true niced tvs (inl e) h = cc
main-stops start true niced tvs (inr e) h = rw e (count_loop-stops _ tvs 0 (omega arith))
