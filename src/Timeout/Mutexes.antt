-- ===== src/Timeout/Mutexes.antt =====
-- The mutex of main of chapter_12/12.4.c
use apue_note.Common.{ℕ, ◌+◌, Bool, true, false, ◌&&◌, Option, none, some, ◌==◌, if◌then◌else◌}
use apue_note.Timeout.{ToInfo, Placed, timeout, Mutex, MainReplies}

abbrev pub inits : MainReplies → Bool
inits r = (r.attr_init == 0) && ((r.settype == 0) && (r.mutex_init == 0))

-- What timeout does when main calls it
abbrev pub place : MainReplies → Placed
place r =
    timeout r.later r.malloc r.thread
      (record { tv_sec = r.now.tv_sec + 10; tv_nsec = r.now.tv_nsec }) r.arg

abbrev pub pending : MainReplies → Option ToInfo
pending r = if r.condition then (place r).started else none

abbrev pub free : Bool → Mutex
free r = record { recursive = r; owner = none; depth = 0 }

abbrev pub is_some : Option ℕ → Bool
is_some none = false
is_some (some n) = true
