-- ===== src/Queues/Passing.antt =====
-- That no message of chapter_17/17-3.c is lost or overtaken on its queue
use apue_note.Common.{
  ℕ, ◌≡◌, Option, none, some, List, [], ◌∷◌, ◌++◌, map, take, ◌==◌, if◌then◌else◌,
}
use apue_note.Queues.{Message, maxmsz, State, Event, arrives, receives, writes, prints}

abbrev pub cut : Message → Message
cut = take maxmsz

abbrev pub held_list : Option Message → List Message
held_list none = []
held_list (some m) = m ∷ []

abbrev pub printed_of : ℕ → List (ℕ × Message) → List Message
printed_of i [] = []
printed_of i (p ∷ ps) = let rest = printed_of i ps in if i == p.0 then p.1 ∷ rest else rest

abbrev pub flow : List Message → List Message → Option Message → List Message → List Message
flow p so h q = p ++ (map cut so ++ (map cut (held_list h) ++ map cut q))

-- The messages of a queue wherever they are, the oldest first, as main prints them
abbrev pub content : ℕ → State → List Message
content i s = flow (printed_of i s.printed) (s.socket i) (s.held i) (s.queue i)

abbrev pub arrival : ℕ → Event → List Message
arrival i (arrives j m) = if i == j then cut m ∷ [] else []
arrival i (receives j) = []
arrival i (writes j) = []
arrival i (prints j) = []

abbrev pub arrivals : ℕ → List Event → List Message
arrivals i [] = []
arrivals i (e ∷ es) = arrival i e ++ arrivals i es

-- After a step, the contents are those before and what has arrived.
After : ℕ → Event → State → Option State → Type 0
After i e s none = Unit {0}
After i e s (some t) = content i t ≡ content i s ++ arrival i e

queue_of : Event → ℕ
queue_of (arrives j m) = j
queue_of (receives j) = j
queue_of (writes j) = j
queue_of (prints j) = j

abbrev content_of : ℕ → Option State → List Message
content_of i none = []
content_of i (some s) = content i s
