-- ===== src/Locks/Checked.antt =====
-- Checks over all places of the two processes of chapter_14/14.3.c
use mathlib.Core.Path.{subst}
use apue_note.Common.{
  ℕ, ◌≡◌, refl, Bool, true, false, ap, zero, suc, List, [], ◌∷◌, get_elem?, not, ◌&&◌, ◌||◌, Option,
  none, some, if◌then◌else◌,
}
use apue_note.Locks.{
  Who, parent, child, Pc, locking, telling, waiting, asking, blocked, exiting, succeeded, failed,
  View, same_who, act,
}

abbrev pcs : List Pc
pcs = locking ∷ telling ∷ waiting ∷ asking ∷ blocked ∷ exiting ∷ succeeded ∷ failed ∷ []

abbrev all_of : (Pc → Bool) → List Pc → Bool
all_of P [] = true
all_of P (p ∷ ps) = P p && all_of P ps

-- All of the places pass a test.
abbrev pub all_pc : (Pc → Bool) → Bool
all_pc P = all_of P pcs

and_left : (a b : Bool) → a && b ≡ true → a ≡ true
and_left true b h = refl
and_left false b h = h

and_right : (a b : Bool) → a && b ≡ true → b ≡ true
and_right true b h = h
and_right false b h = absurd (cc h)

some-injective : (q p : Pc) → some q ≡ some p → q ≡ p
some-injective q p e = ap or_first e
  where
    or_first : Option Pc → Pc
    or_first none = q
    or_first (some r) = r

all_of-get :
    (P : Pc → Bool) (ps : List Pc) (p : Pc) (i : ℕ)
    → all_of P ps ≡ true
    → get_elem? ps i ≡ some p
    → P p ≡ true
all_of-get P [] p i h e = absurd (cc e)
all_of-get P (q ∷ ps) p zero h e =
    subst (λ r. P r ≡ true) (some-injective q p e) (and_left (P q) (all_of P ps) h)
all_of-get P (q ∷ ps) p (suc i) h e = all_of-get P ps p i (and_right (P q) (all_of P ps) h) e

-- A test that all places pass, one passes.
pub all_pc-apply : (P : Pc → Bool) → all_pc P ≡ true → (p : Pc) → P p ≡ true
all_pc-apply P h locking = all_of-get P pcs locking 0 h refl
all_pc-apply P h telling = all_of-get P pcs telling 1 h refl
all_pc-apply P h waiting = all_of-get P pcs waiting 2 h refl
all_pc-apply P h asking = all_of-get P pcs asking 3 h refl
all_pc-apply P h blocked = all_of-get P pcs blocked 4 h refl
all_pc-apply P h exiting = all_of-get P pcs exiting 5 h refl
all_pc-apply P h succeeded = all_of-get P pcs succeeded 6 h refl
all_pc-apply P h failed = all_of-get P pcs failed 7 h refl

pub all_pairs-apply :
    (P : Pc → Pc → Bool) → all_pc (λ p. all_pc (P p)) ≡ true → (p q : Pc) → P p q ≡ true
all_pairs-apply P h p q = all_pc-apply (P p) (all_pc-apply (λ r. all_pc (P r)) h p) q

-- What a place tells of the locks: that the process holds its first byte, and its second
abbrev pub holds : Pc → Bool
holds locking = false
holds succeeded = false
holds failed = false
holds other = true

abbrev pub has_second : Pc → Bool
has_second exiting = true
has_second other = false

abbrev pub has_told : Pc → Bool
has_told locking = false
has_told telling = false
has_told other = true

abbrev pub owner : (me other : Who) → Pc → Pc → Option Who
owner me other p q = if holds p then some me else (if has_second q then some other else none)

-- Before its second lock
abbrev early : Pc → Bool
early locking = true
early telling = true
early waiting = true
early other = false

-- Places that the two have at the same time
abbrev pub fits : Pc → Pc → Bool
fits locking q = early q
fits telling q = early q
fits waiting asking = true
fits waiting blocked = true
fits waiting q = early q
fits asking waiting = true
fits asking asking = true
fits asking blocked = true
fits asking q = false
fits blocked waiting = true
fits blocked asking = true
fits blocked failed = true
fits blocked q = false
fits exiting failed = true
fits exiting q = false
fits succeeded failed = true
fits succeeded q = false
fits failed blocked = true
fits failed exiting = true
fits failed succeeded = true
fits failed q = false

abbrev same_bool : Bool → Bool → Bool
same_bool true b = b
same_bool false b = not b

abbrev same_owner : Option Who → Option Who → Bool
same_owner none none = true
same_owner (some v) (some w) = same_who v w
same_owner none (some w) = false
same_owner (some v) none = false

same_bool-eq : (a b : Bool) → same_bool a b ≡ true → a ≡ b
same_bool-eq true b h = cc h
same_bool-eq false true h = absurd (cc h)
same_bool-eq false false h = refl

same_owner-eq : (a b : Option Who) → same_owner a b ≡ true → a ≡ b
same_owner-eq none none h = refl
same_owner-eq (some parent) (some parent) h = refl
same_owner-eq (some child) (some child) h = refl
same_owner-eq (some parent) (some child) h = absurd (cc h)
same_owner-eq (some child) (some parent) h = absurd (cc h)
same_owner-eq none (some w) h = absurd (cc h)
same_owner-eq (some v) none h = absurd (cc h)

-- The view of `me` at `p` with the other at `q`
abbrev pub view : (me other : Who) → Pc → Pc → View
view me other p q = record {
  pc = p;
  told = has_told p;
  first = owner me other p q;
  second = owner other me q p;
}

abbrev pub moved : (me other : Who) → Pc → Pc → View
moved me other p q = act me p q (has_told q) (view me other p q)

-- From places that fit, a step comes to places that fit, with the locks and the telling as they tell.
abbrev pub keeps : (me other : Who) → Pc → Pc → Bool
keeps me other p q =
    let v = moved me other p q in
    not (fits p q)
    || (fits v.pc q
        && (same_bool v.told (has_told v.pc)
            && (same_owner v.first (owner me other v.pc q)
                && same_owner v.second (owner other me q v.pc))))

pub parent_keeps : (p q : Pc) → keeps parent child p q ≡ true
unfolding act
parent_keeps = all_pairs-apply (keeps parent child) refl

pub child_keeps : (p q : Pc) → keeps child parent p q ≡ true
unfolding act
child_keeps = all_pairs-apply (keeps child parent) refl

pub implies : (a b : Bool) → not a || b ≡ true → a ≡ true → b ≡ true
implies true b e f = e
implies false b e f = absurd (cc f)

pub fits_symm : (p q : Pc) → fits p q ≡ true → fits q p ≡ true
fits_symm p q =
    implies (fits p q) (fits q p) (all_pairs-apply (λ a b. not (fits a b) || fits b a) refl p q)

view_eq :
    (me other : Who) (q p : Pc) (told : Bool) (first second : Option Who)
    → told ≡ has_told p
    → first ≡ owner me other p q
    → second ≡ owner other me q p
    → record { pc = p; told = told; first = first; second = second } ≡ view me other p q
view_eq me other q p told first second e f g = rw (e, f, g) refl

-- What `keeps` says
pub keeps-view :
    (me other : Who) (p q : Pc)
    → keeps me other p q ≡ true
    → fits p q ≡ true
    → let v = moved me other p q in (fits v.pc q ≡ true) × (v ≡ view me other v.pc q)
keeps-view me other p q k h =
    let v : View = moved me other p q in
    let a = same_owner v.first (owner me other v.pc q) in
    let b = same_owner v.second (owner other me q v.pc) in
    let c = same_bool v.told (has_told v.pc) in
    let all = implies (fits p q) (fits v.pc q && (c && (a && b))) k h in
    let rest = and_right (fits v.pc q) (c && (a && b)) all in
    let owners = and_right c (a && b) rest in
    (
      and_left (fits v.pc q) (c && (a && b)) all,
      view_eq me other q v.pc v.told v.first v.second
          (same_bool-eq v.told (has_told v.pc) (and_left c (a && b) rest))
          (same_owner-eq v.first (owner me other v.pc q) (and_left a b owners))
          (same_owner-eq v.second (owner other me q v.pc) (and_right a b owners)),
    )
