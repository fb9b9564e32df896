-- ===== src/Queues/Bounded.antt =====
-- The buffer of main of chapter_17/17-3.c, with senders such as chapter_17/17-4.c
use apue_note.Common.{
  ℕ, zero, suc, ◌<◌, ◌≤◌, ◌≡◌, inl, inr, Bool-cases, Bool, false, Option, none, some, List, [], ◌∷◌,
  ◌++◌, length, take, ◌==◌, update, arith,
}
use mathlib.Core.Path.{subst}
use apue_note.Queues.{
  Message, maxmsz, send_message, State, Event, arrives, receives, writes, prints, received, written,
  shown, step, and_run, run,
}

abbrev pub AllShort : List Message → Type 0
AllShort [] = Unit {0}
AllShort (m ∷ ms) = (length m < maxmsz) × AllShort ms

abbrev pub HeldShort : Option Message → Type 0
HeldShort none = Unit {0}
HeldShort (some m) = length m < maxmsz

-- No message anywhere fills the buffer, and main has not written outside of it.
abbrev pub Short : State → Type 0
Short s =
    (s.overrun ≡ false)
    × ((i : ℕ) → AllShort (s.queue i))
    × ((i : ℕ) → HeldShort (s.held i))
    × ((i : ℕ) → AllShort (s.socket i))

abbrev pub ShortEvent : Event → Type 0
ShortEvent (arrives j m) = length m < maxmsz
ShortEvent (receives j) = Unit {0}
ShortEvent (writes j) = Unit {0}
ShortEvent (prints j) = Unit {0}

abbrev pub ShortEvents : List Event → Type 0
ShortEvents [] = Unit {0}
ShortEvents (e ∷ es) = ShortEvent e × ShortEvents es

abbrev IfShort : Option State → Type 0
IfShort none = Unit {0}
IfShort (some s) = Short s

AllShort-append :
    (ms : List Message) (m : Message) → AllShort ms → length m < maxmsz → AllShort (ms ++ m ∷ [])
AllShort-append [] m h l = (l, tt)
AllShort-append (x ∷ ms) m h l = (h.0, AllShort-append ms m h.1 l)

length-take_le : (n : ℕ) (m : Message) → length (take n m) ≤ length m
length-take_le zero m = omega arith
length-take_le (suc n) [] = omega arith
length-take_le (suc n) (x ∷ m) = omega (arith, length-take_le n m)

length-take_bound : (n : ℕ) (m : Message) → length (take n m) ≤ n
length-take_bound zero m = omega arith
length-take_bound (suc n) [] = omega arith
length-take_bound (suc n) (x ∷ m) = omega (arith, length-take_bound n m)

update-All :
    {A : Type 0} (P : A → Type 0) (f : ℕ → A) (j : ℕ) (a : A)
    → ((i : ℕ) → P (f i))
    → P a
    → (i : ℕ) → P (update f j a i)
update-All P f j a h l i = elim (Bool-cases (i == j)) [ inl t ↦ rw t l | inr n ↦ rw n (h i) ]

received-Short :
    (j : ℕ) (q : List Message) (h : Option Message) (s : State)
    → Short s
    → AllShort q
    → IfShort (received j q h s)
received-Short j [] h s k l = tt
received-Short j (m ∷ ms) (some x) s k l = tt
received-Short j (m ∷ ms) none s k l = (
  k.0,
  update-All AllShort s.queue j ms k.1 l.1,
  update-All HeldShort s.held j (some (take maxmsz m)) k.2
      (omega (arith, l.0, length-take_le maxmsz m)),
  k.3,
)

written-Short :
    (j : ℕ) (h : Option Message) (s : State) → Short s → HeldShort h → IfShort (written j h s)
written-Short j none s k l = tt
written-Short j (some m) s k l = (
  k.0,
  k.1,
  update-All HeldShort s.held j none k.2 tt,
  update-All AllShort s.socket j (s.socket j ++ m ∷ []) k.3
      (AllShort-append (s.socket j) m (k.3 j) l),
)

shown-Short :
    (j : ℕ) (so : List Message) (s : State) → Short s → AllShort so → IfShort (shown j so s)
shown-Short j [] s k l = tt
shown-Short j (m ∷ ms) s k l = (
  (let a = k.0 in let b = l.0 in ground arith),
  k.1,
  k.2,
  update-All AllShort s.socket j ms k.3 l.1,
)

step-Short : (e : Event) (s : State) → Short s → ShortEvent e → IfShort (step e s)
unfolding step
step-Short (arrives j m) s k l = (
  k.0,
  update-All AllShort s.queue j (s.queue j ++ m ∷ []) k.1 (AllShort-append (s.queue j) m (k.1 j) l),
  k.2,
  k.3,
)
step-Short (receives j) s k l = received-Short j (s.queue j) (s.held j) s k (k.1 j)
step-Short (writes j) s k l = written-Short j (s.held j) s k (k.2 j)
step-Short (prints j) s k l = shown-Short j (s.socket j) s k (k.3 j)

and_run-Short :
    (es : List Event) (t : State) (o : Option State)
    → IfShort o
    → ((u : State) → Short u → run es u ≡ some t → Short t)
    → and_run o (run es) ≡ some t
    → Short t
and_run-Short es t none k ih h = absurd (cc h)
and_run-Short es t (some u) k ih h = ih u k h

-- If each message that arrives has fewer than MAXMSZ bytes and so has each that is there at first, main
-- writes nothing outside of its buffer in any run, and this holds of the messages at the end.
pub run-Short :
    (es : List Event) (s t : State) → ShortEvents es → Short s → run es s ≡ some t → Short t
unfolding run
run-Short [] s t l k h = subst IfShort h k
run-Short (e ∷ es) s t l k h =
    and_run-Short es t (step e s) (step-Short e s k l.0) (λ u v. run-Short es u t l.1 v) h

-- A message of the sender has fewer than MAXMSZ bytes, whatever its text.
pub send_message-HeldShort :
    (argc : ℕ) (msgget msgsnd : Bool) (text : Message)
    → HeldShort (send_message argc msgget msgsnd text)
unfolding send_message
send_message-HeldShort argc msgget msgsnd text = elim (Bool-cases (argc == 3)) [
  | inr f ↦ rw f tt
  | inl t ↦ rw t (elim (Bool-cases msgget) [
    | inr f ↦ rw f tt
    | inl g ↦ rw g (elim (Bool-cases msgsnd) [
      | inr f ↦ rw f tt
      | inl k ↦ rw k (omega (arith, length-take_bound 511 text))
    ])
  ])
]
