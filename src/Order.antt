-- ===== src/Order.antt =====
-- The output of a parent and a child that write a byte at a time: chapter_08/8.9.c, where they race,
-- 8.9.2.c, where the child waits for the parent, and 8.9.3.c, where the parent waits for the child.
-- TELL_WAIT and its kin are code that these programs only call: a wait is over once the other has told.
mod Progress
mod Mixed
mod Turns
mod Tests
use apue_note.Common.{ℕ, ◌≡◌, Bool, true, false, List, [], ◌∷◌, ◌++◌, map, if◌then◌else◌}

pub data Who : Type 0 where
  parent child : Who

-- A byte by putc to a stream without a buffer, or a call of TELL_WAIT's kin
pub data Action : Type 0 where
  putc : ℕ → Action
  tell wait : Action

-- What each has still to do, whether each has told the other, and what has been written by whom
pub record System : Type 0 where
  pub parent_todo : List Action
  pub child_todo : List Action
  pub parent_told : Bool
  pub child_told : Bool
  pub out : List (Who × ℕ)

abbrev pub charatatime : List ℕ → List Action
charatatime str = map putc str

abbrev pub from_child : List ℕ
from_child =
    b'o' ∷ b'u' ∷ b't' ∷ b'p' ∷ b'u' ∷ b't' ∷ 32 ∷ b'f' ∷ b'r' ∷ b'o' ∷ b'm' ∷ 32 ∷ b'c' ∷ b'h'
    ∷ b'i' ∷ b'l' ∷ b'd' ∷ b'\n' ∷ []

abbrev pub from_parent : List ℕ
from_parent =
    b'o' ∷ b'u' ∷ b't' ∷ b'p' ∷ b'u' ∷ b't' ∷ 32 ∷ b'f' ∷ b'r' ∷ b'o' ∷ b'm' ∷ 32 ∷ b'p' ∷ b'a'
    ∷ b'r' ∷ b'e' ∷ b'n' ∷ b't' ∷ b'\n' ∷ []

-- The two processes behind fork
abbrev pub forked : (parent_todo child_todo : List Action) → System
forked p c = record {
  parent_todo = p;
  child_todo = c;
  parent_told = false;
  child_told = false;
  out = [];
}

-- 8.9.c, 8.9.2.c and 8.9.3.c
abbrev pub race : System
race = forked (charatatime from_parent) (charatatime from_child)

abbrev pub parent_first : System
parent_first = forked (charatatime from_parent ++ (tell ∷ [])) (wait ∷ charatatime from_child)

abbrev pub child_first : System
child_first = forked (wait ∷ charatatime from_parent) (charatatime from_child ++ (tell ∷ []))

abbrev parent_does : List Action → System → System
parent_does [] s = s
parent_does (putc c ∷ todo) s = record s { parent_todo = todo; out = s.out ++ ((parent, c) ∷ []) }
parent_does (tell ∷ todo) s = record s { parent_todo = todo; parent_told = true }
parent_does (wait ∷ todo) s = if s.child_told then record s { parent_todo = todo } else s

abbrev child_does : List Action → System → System
child_does [] s = s
child_does (putc c ∷ todo) s = record s { child_todo = todo; out = s.out ++ ((child, c) ∷ []) }
child_does (tell ∷ todo) s = record s { child_todo = todo; child_told = true }
child_does (wait ∷ todo) s = if s.parent_told then record s { child_todo = todo } else s

unfoldable pub step : Who → System → System
step parent s = parent_does s.parent_todo s
step child s = child_does s.child_todo s

-- The bytes in the order in which they come
abbrev pub bytes : List (Who × ℕ) → List ℕ
bytes out = map (λ (who, c). c) out
