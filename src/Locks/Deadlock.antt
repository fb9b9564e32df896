-- ===== src/Locks/Deadlock.antt =====
-- That exactly one of the two processes of chapter_14/14.3.c fails, and that both end
use mathlib.Core.Path.{subst}
use apue_note.Common.{
  ℕ, ◌+◌, ◌<◌, ◌≡◌, refl, sym, ap, ◌∙◌, ◌⊎◌, inl, inr, Bool, true, false, not, ◌||◌, List, ltb,
  arith,
}
use apue_note.Common.Runs.{after, after-Inv}
use apue_note.Locks.{
  Who, parent, child, Pc, locking, telling, waiting, asking, blocked, exiting, succeeded, failed,
  System, View, act, start, step,
}
use apue_note.Locks.Checked.{
  all_pairs-apply, owner, has_told, fits, fits_symm, implies, moved, keeps-view, parent_keeps,
  child_keeps,
}

-- The state with the two at `p` and `q`
abbrev state : Pc → Pc → System
state p q = record {
  parent_pc = p;
  child_pc = q;
  parent_told = has_told p;
  child_told = has_told q;
  byte0 = owner child parent q p;
  byte1 = owner parent child p q;
}

abbrev Inv : System → Type 0
Inv s = (p : Pc) × (q : Pc) × (s ≡ state p q) × (fits p q ≡ true)

abbrev put_parent : Pc → View → System
put_parent q v = record {
  parent_pc = v.pc;
  child_pc = q;
  parent_told = v.told;
  child_told = has_told q;
  byte0 = v.second;
  byte1 = v.first;
}

abbrev put_child : Pc → View → System
put_child p v = record {
  parent_pc = p;
  child_pc = v.pc;
  parent_told = has_told p;
  child_told = v.told;
  byte0 = v.first;
  byte1 = v.second;
}

parent_steps :
    (p q : Pc)
    → fits p q ≡ true
    → (step parent (state p q) ≡ state (moved parent child p q).pc q)
      × (fits (moved parent child p q).pc q ≡ true)
unfolding step
parent_steps p q h =
    let (f, e) = keeps-view parent child p q (parent_keeps p q) h in (ap (put_parent q) e, f)

child_steps :
    (p q : Pc)
    → fits p q ≡ true
    → (step child (state p q) ≡ state p (moved child parent q p).pc)
      × (fits p (moved child parent q p).pc ≡ true)
unfolding step
child_steps p q h =
    let (f, e) = keeps-view child parent q p (child_keeps q p) (fits_symm p q h) in
    (ap (put_child p) e, fits_symm (moved child parent q p).pc p f)

system-Inv : (past : List Who) → Inv (after step start past)
system-Inv past = after-Inv step start (λ _ s. Inv s) (locking, locking, refl, refl) go past
  where
    go : (e : Who) (past : List Who) (s : System) → Inv s → Inv (step e s)
    go parent past s (p, q, e, h) =
        let (f, g) = parent_steps p q h in (_, q, ap (step parent) e ∙ f, g)
    go child past s (p, q, e, h) =
        let (f, g) = child_steps p q h in (p, _, ap (step child) e ∙ f, g)

abbrev rank : Pc → ℕ
rank locking = 6
rank telling = 5
rank waiting = 4
rank asking = 3
rank blocked = 2
rank exiting = 1
rank succeeded = 0
rank failed = 0

-- The calls that the two have still to make, at most
abbrev pub left : System → ℕ
left s = rank s.parent_pc + rank s.child_pc

-- One has failed with EDEADLK, and the other has got both locks and exits with status 0.
abbrev pub OneFails : System → Type 0
OneFails s =
    ((s.parent_pc ≡ succeeded) × (s.child_pc ≡ failed))
    ⊎ ((s.parent_pc ≡ failed) × (s.child_pc ≡ succeeded))

abbrev pub Goes : System → Type 0
Goes s = OneFails s ⊎ (left (step parent s) < left s) ⊎ (left (step child s) < left s)

abbrev one_fails : Pc → Pc → Bool
one_fails succeeded failed = true
one_fails failed succeeded = true
one_fails p q = false

one_fails-OneFails : (p q : Pc) → one_fails p q ≡ true → OneFails (state p q)
one_fails-OneFails succeeded failed e = inl (refl, refl)
one_fails-OneFails failed succeeded e = inr (refl, refl)
one_fails-OneFails p q e = absurd (cc e)

abbrev goes : Pc → Pc → Bool
goes p q =
    let s = state p q in
    not (fits p q)
    || (one_fails p q
        || (ltb (left (step parent s)) (left s) || ltb (left (step child s)) (left s)))

all_go : (p q : Pc) → goes p q ≡ true
unfolding step act
all_go = all_pairs-apply goes refl

ltb-lt : (m n : ℕ) → ltb m n ≡ true → m < n
ltb-lt m n e = ground arith

or_cases : (a b : Bool) → a || b ≡ true → (a ≡ true) ⊎ (b ≡ true)
or_cases true b e = inl refl
or_cases false b e = inr e

state-Goes : (p q : Pc) → fits p q ≡ true → Goes (state p q)
state-Goes p q h =
    let s = state p q in
    let a = ltb (left (step parent s)) (left s) in
    let b = ltb (left (step child s)) (left s) in
    elim (or_cases (one_fails p q) (a || b)
      (implies (fits p q) (one_fails p q || (a || b)) (all_go p q) h)) [
        | inl e ↦ inl (one_fails-OneFails p q e)
        | inr e ↦ elim (or_cases a b e) [
          | inl f ↦ inr (inl (ltb-lt (left (step parent s)) (left s) f))
          | inr f ↦ inr (inr (ltb-lt (left (step child s)) (left s) f))
        ]
      ]

main-Goes : (past : List Who) → Goes (after step start past)
main-Goes past = let (p, q, e, h) = system-Inv past in subst Goes (sym e) (state-Goes p q h)

-- Both never fail, and both never get their two locks.
abbrev pub both_alike : Pc → Pc → Bool
both_alike succeeded succeeded = true
both_alike failed failed = true
both_alike exiting exiting = true
both_alike blocked blocked = true
both_alike p q = false

all_differ : (p q : Pc) → not (fits p q) || not (both_alike p q) ≡ true
all_differ = all_pairs-apply (λ p q. not (fits p q) || not (both_alike p q)) refl

main-differ :
    (past : List Who)
    → both_alike (after step start past).parent_pc (after step start past).child_pc ≡ false
main-differ past =
    let (p, q, e, h) = system-Inv past in
    subst (λ s. both_alike s.parent_pc s.child_pc ≡ false) (sym e)
      (negated (both_alike p q) (implies (fits p q) (not (both_alike p q)) (all_differ p q) h))
  where
    negated : (b : Bool) → not b ≡ true → b ≡ false
    negated true f = absurd (cc f)
    negated false f = refl

-- The deadlock is always broken, and by one failure. In every reachable state one process has failed and
-- the other has exited with status 0, or a step of one of them brings the two nearer to that; and never do
-- both wait for their second byte, have both bytes, or end alike.
pub main-breaks :
    (past : List Who)
    → Goes (after step start past)
      × (both_alike (after step start past).parent_pc (after step start past).child_pc ≡ false)
main-breaks past = (main-Goes past, main-differ past)
