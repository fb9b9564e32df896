-- ===== src/Timeout/Once.antt =====
-- When the function of a timeout of chapter_12/12.4.c is called
use apue_note.Common.{
  ℕ, ◌+◌, ◌*◌, ◌<◌, ◌≡◌, ◌↔◌, Bool, true, false, ◌&&◌, ◌||◌, Option, none, some, List, [], ◌∷◌,
  ◌++◌, ltb, ◌==◌, if◌then◌else◌, arith,
}
use apue_note.Timeout.{
  Timespec, ThreadReplies, makethread, ToInfo, sectonsec, Placed, timeout_helper,
}

abbrev pub nanos : Timespec → ℕ
nanos t = t.tv_sec * sectonsec + t.tv_nsec

abbrev pub Normal : Timespec → Type 0
Normal t = t.tv_nsec < sectonsec

abbrev later_nanos : (a b c d : ℕ) → Bool
later_nanos a b c d = ltb c a || ((a == c) && ltb d b)

-- makethread returns 0 exactly if a thread runs, and leaves no attribute object behind.
pub makethread-runs :
    (r : ThreadReplies)
    → (((makethread r).err ≡ 0) ↔ ((makethread r).runs ≡ true)) × ((makethread r).attr_left ≡ false)
unfolding makethread
makethread-runs r = ground arith

-- The calls of the function that come of a timeout, with their times in nanoseconds and arguments
abbrev pub direct : Timespec → Option ℕ → List (ℕ × ℕ)
direct now none = []
direct now (some arg) = (nanos now, arg) ∷ []

abbrev pub by_thread : Timespec → Option ToInfo → List (ℕ × ℕ)
by_thread now none = []
by_thread now (some tip) = let h = timeout_helper tip in (nanos now + nanos h.0, h.1) ∷ []

abbrev pub calls : Timespec → Placed → List (ℕ × ℕ)
calls now p = direct now p.called ++ by_thread now p.started

-- The time of the call: that asked for if it is to come and there is memory and a thread, else now
abbrev pub call_time : Timespec → Bool → ThreadReplies → Timespec → ℕ
call_time now malloc r when =
    if ltb (nanos now) (nanos when) && (malloc && (makethread r).runs)
    then nanos when
    else nanos now
