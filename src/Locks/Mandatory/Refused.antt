-- ===== src/Locks/Mandatory/Refused.antt =====
-- That the lock of the child is refused in chapter_14/14.3.2.c, and what its read finds
use apue_note.Common.{
  ℕ, ◌+◌, ◌<◌, arith, ◌≡◌, refl, ap, ◌⊎◌, inl, inr, Bool, true, false, ◌&&◌, List, [], ◌∷◌,
  if◌then◌else◌,
}
use apue_note.Common.Runs.{after, after-Inv}
use apue_note.Locks.Mandatory.{
  Calls, Parent, locking, telling, waiting, parent_exited, Child, awaiting, read_locking, seeking,
  reading, child_exited, Line, lock_refused, read_failed, read_ok, System, Who, parent_goes,
  child_goes, start, step,
}

abbrev LinesAt : Calls → Child → List Line → Type 0
LinesAt calls awaiting lines = lines ≡ []
LinesAt calls read_locking lines = lines ≡ []
LinesAt calls seeking lines = lines ≡ lock_refused ∷ []
LinesAt calls reading lines = lines ≡ lock_refused ∷ []
LinesAt calls (child_exited n) lines =
    (lines ≡ (if calls.mandatory then read_failed else read_ok) ∷ lock_refused ∷ []) × (n ≡ 0)

abbrev Fresh : Child → Bool → List Line → Type 0
Fresh child told lines = (child ≡ awaiting) × (told ≡ false) × (lines ≡ [])

abbrev ExitedChild : Child → Type 0
ExitedChild (child_exited n) = n ≡ 0
ExitedChild other = ⊥

abbrev Inv : Calls → Parent → Child → Bool → Bool → List Line → Type 0
Inv calls locking child told held lines = Fresh child told lines
Inv calls telling child told held lines = Fresh child told lines × (held ≡ true)
Inv calls waiting child told held lines = (told ≡ true) × (held ≡ true) × LinesAt calls child lines
Inv calls (parent_exited n) child told held lines =
    (n ≡ 0) × ExitedChild child × LinesAt calls child lines

abbrev InvOf : Calls → System → Type 0
InvOf calls s = Inv calls s.parent s.child s.told s.held s.lines

read_line :
    (b : Bool)
    → (if b && true then read_failed else read_ok) ∷ lock_refused ∷ []
      ≡ (if b then read_failed else read_ok) ∷ lock_refused ∷ []
read_line true = refl
read_line false = refl

abbrev parent_rank : Parent → ℕ
parent_rank locking = 3
parent_rank telling = 2
parent_rank waiting = 1
parent_rank (parent_exited n) = 0

abbrev child_rank : Child → ℕ
child_rank awaiting = 4
child_rank read_locking = 3
child_rank seeking = 2
child_rank reading = 1
child_rank (child_exited n) = 0

-- The calls that the two have still to make
abbrev pub left : System → ℕ
left s = parent_rank s.parent + child_rank s.child

-- Both have exited with status 0, and the child has printed that its lock was refused and how its read went.
abbrev pub Done : Calls → System → Type 0
Done calls s =
    (s.parent ≡ parent_exited 0)
    × (s.child ≡ child_exited 0)
    × (s.lines ≡ (if calls.mandatory then read_failed else read_ok) ∷ lock_refused ∷ [])

abbrev pub Goes : Calls → System → Type 0
Goes calls s =
    Done calls s
    ⊎ (left (step calls parent_goes s) < left s)
    ⊎ (left (step calls child_goes s) < left s)

-- When the calls of the parent and lseek work
module _ (calls : Calls) (locks : calls.write_lock_works ≡ true)
    (waits : calls.waitpid_works ≡ true) (seeks : calls.lseek_works ≡ true) where
  abbrev at_ : Parent → Child → Bool → Bool → List Line → System
  at_ p c t h ls = record { parent = p; child = c; told = t; held = h; lines = ls }

  parent-Inv :
      (p : Parent) (c : Child) (t h : Bool) (ls : List Line)
      → Inv calls p c t h ls
      → InvOf calls (step calls parent_goes (at_ p c t h ls))
  unfolding step
  parent-Inv locking c t h ls inv = rw locks (inv, refl)
  parent-Inv telling c t h ls ((e, f, g), k) = rw (e, g) (refl, k, refl)
  parent-Inv waiting (child_exited n) t h ls (e, f, g) = rw waits (refl, g.1, g)
  parent-Inv waiting awaiting t h ls inv = rw waits inv
  parent-Inv waiting read_locking t h ls inv = rw waits inv
  parent-Inv waiting seeking t h ls inv = rw waits inv
  parent-Inv waiting reading t h ls inv = rw waits inv
  parent-Inv (parent_exited n) c t h ls inv = inv

  child-Inv :
      (p : Parent) (c : Child) (t h : Bool) (ls : List Line)
      → Inv calls p c t h ls
      → InvOf calls (step calls child_goes (at_ p c t h ls))
  unfolding step
  child-Inv locking c t h ls (e, f, g) = rw (e, f) (refl, refl, g)
  child-Inv telling c t h ls ((e, f, g), k) = rw (e, f) ((refl, refl, g), k)
  child-Inv waiting awaiting t h ls (e, f, g) = rw e (refl, f, g)
  child-Inv waiting read_locking t h ls (e, f, g) = rw (f, g) (e, refl, refl)
  child-Inv waiting seeking t h ls (e, f, g) = rw seeks (e, f, g)
  child-Inv waiting reading t h ls (e, f, g) =
      rw (f, g) (e, refl, (read_line calls.mandatory, refl))
  child-Inv waiting (child_exited n) t h ls inv = inv
  child-Inv (parent_exited n) (child_exited m) t h ls inv = inv
  child-Inv (parent_exited n) c t h ls (e, f, g) = absurd f

  state-Goes :
      (p : Parent) (c : Child) (t h : Bool) (ls : List Line)
      → Inv calls p c t h ls
      → Goes calls (at_ p c t h ls)
  unfolding step
  state-Goes locking c t h ls inv = inr (inl (rw locks (omega arith)))
  state-Goes telling c t h ls inv = inr (inl (omega arith))
  state-Goes waiting awaiting t h ls (e, f, g) = inr (inr (rw e (omega arith)))
  state-Goes waiting read_locking t h ls (e, f, g) = inr (inr (rw f (omega arith)))
  state-Goes waiting seeking t h ls inv = inr (inr (rw seeks (omega arith)))
  state-Goes waiting reading t h ls inv = inr (inr (omega arith))
  state-Goes waiting (child_exited n) t h ls inv = inr (inl (rw waits (omega arith)))
  state-Goes (parent_exited n) (child_exited m) t h ls (e, f, g) =
      inl (ap parent_exited e, ap child_exited f, g.0)
  state-Goes (parent_exited n) c t h ls (e, f, g) = absurd f

  -- When the calls of the parent and lseek work, in every interleaving the child's lock is refused and its
  -- read fails exactly if locks are mandatory: in every reachable state both have exited with status 0 and
  -- the child has printed that, or a step of one of them leaves one call less to make.
  pub main-Refused : (past : List Who) → Goes calls (after (step calls) start past)
  main-Refused past =
      let s = after (step calls) start past in
      state-Goes s.parent s.child s.told s.held s.lines
        (after-Inv (step calls) start (λ _ s. InvOf calls s) (refl, refl, refl) keeps past)
    where
      keeps :
          (e : Who) (past : List Who) (s : System) → InvOf calls s → InvOf calls (step calls e s)
      keeps parent_goes past s h = parent-Inv s.parent s.child s.told s.held s.lines h
      keeps child_goes past s h = child-Inv s.parent s.child s.told s.held s.lines h
