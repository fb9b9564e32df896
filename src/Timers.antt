-- ===== src/Timers.antt =====
-- chapter_10/p5.c: a queue of timers over one `alarm`. The nodes lie in a store of blocks, each
-- with its mark of liveness, so that a touch of a freed block is seen.
pub mod Chain
pub mod Push
pub mod Fire
mod Tests
use apue_note.Common.{
  ℕ, zero, suc, ◌+◌, ◌-◌, ◌%◌, ◌^◌, Bool, true, false, not, ◌||◌, Option, none, some, List, [], ◌∷◌,
  ltb, ◌==◌, if◌then◌else◌, update,
}

-- `struct timer_t`; `proc` is the number of a function and `next` the number of a block.
pub record Timer : Type 0 where
  pub started_at : ℕ
  pub ended_at : ℕ
  pub proc : ℕ
  pub next : ℕ

abbrev pub null : ℕ
null = 0

-- What the functions change: the blocks, `head`, the pending alarm as the second at which it
-- rings, whether `alarm_proc` is installed, the functions called so far, the last one first, and
-- whether a freed block has been touched.
pub record Timers : Type 0 where
  pub mem : ℕ → Timer
  pub live : ℕ → Bool
  pub head : ℕ
  pub alarm : Option ℕ
  pub caught : Bool
  pub fired : List ℕ
  pub touched_freed : Bool

abbrev pub u32 : ℕ → ℕ
u32 n = n % 2 ^ 32

-- `a - b` on `unsigned int`, for `a` and `b` below `2 ^ 32`
abbrev pub sub_u32 : ℕ → ℕ → ℕ
sub_u32 a b = (a + 2 ^ 32 - b) % 2 ^ 32

-- `alarm(seconds)` at the second `now`: 0 cancels the pending alarm.
abbrev pub alarm_after : ℕ → ℕ → Option ℕ
alarm_after now seconds = if seconds == 0 then none else some (now + seconds)

abbrev pub set_alarm : ℕ → ℕ → Timers → Timers
set_alarm now seconds s = record s { alarm = alarm_after now seconds }

-- `p->next = q`
abbrev pub write_next : ℕ → ℕ → (ℕ → Timer) → ℕ → Timer
write_next p q mem = update mem p (record (mem p) { next = q })

-- The cursor of the `while` loop, from `cur`, for at most `fuel` nodes.
unfoldable pub find_place : ℕ → (ℕ → Timer) → ℕ → ℕ → Option ℕ
find_place zero mem ended cur = none
find_place (suc fuel) mem ended cur =
    let on = find_place fuel mem ended (mem cur).next in
    if not ((mem cur).next == null)
    then if ltb (mem (mem cur).next).ended_at ended then on else some cur
    else some cur

unfoldable pub insert_after : ℕ → ℕ → (ℕ → Timer) → ℕ → Timer
insert_after node cur mem = write_next cur node (write_next node (mem cur).next mem)

-- `cur_time` is the clock in an `unsigned int`. The result is what is returned, and the new state.
unfoldable pub push_to_timer_list : ℕ → ℕ → ℕ → Timers → Option (ℕ × Timers)
unfolding insert_after
push_to_timer_list fuel cur_time node s =
    if s.head == null
    then some (
      sub_u32 (s.mem node).ended_at cur_time,
      set_alarm cur_time (sub_u32 (s.mem node).ended_at cur_time) (record s { head = node }),
    )
    else if ltb (s.mem node).ended_at (s.mem s.head).ended_at
    then some (
      sub_u32 (s.mem node).ended_at cur_time,
      set_alarm cur_time (sub_u32 (s.mem node).ended_at cur_time)
          (record s { mem = write_next node s.head s.mem; head = node }),
    )
    else elim (find_place fuel s.mem (s.mem node).ended_at s.head) [
      | none ↦ none
      | some cur ↦
          some (
            sub_u32 (s.mem s.head).ended_at cur_time,
            record s { mem = insert_after node cur s.mem },
          )
    ]

touch : ℕ → Timers → Timers
touch p s = record s { touched_freed = s.touched_freed || not (s.live p) }

free_block : ℕ → Timers → Timers
free_block p s = record s { live = update s.live p false }

-- At the second `now`. The functions of the program only print, so a call is a note in `fired`;
-- `head = cur->next` follows `free(head)` and reads the block again.
unfoldable pub alarm_proc : ℕ → Timers → Timers
unfolding touch free_block
alarm_proc now s =
    let cur = s.mem s.head in
    let called = record (touch s.head s) { fired = cur.proc ∷ s.fired } in
    if not (cur.next == null)
    then (let rung = set_alarm now (sub_u32 (s.mem cur.next).ended_at cur.ended_at) called in
        record (touch s.head (free_block s.head rung)) { head = cur.next })
    else record (free_block s.head called) { head = null }

-- `fresh` is the block that `malloc` returns, and `now` the clock.
unfoldable pub settimeout : ℕ → ℕ → ℕ → ℕ → ℕ → Timers → Option Timers
settimeout fuel now fresh seconds proc s =
    if seconds == 0
    then some (record s { fired = proc ∷ s.fired })
    else (let t : Timer = record {
      started_at = u32 now;
      ended_at = u32 (u32 now + seconds);
      proc = proc;
      next = null;
    } in
        let s' = record s {
          mem = update s.mem fresh t;
          live = update s.live fresh true;
          caught = true;
        } in
        elim (push_to_timer_list fuel (u32 now) fresh s') [ none ↦ none | some (_, u) ↦ some u ])

-- `print` and `print2`
abbrev pub print : ℕ
print = 1

abbrev pub print2 : ℕ
print2 = 2

abbrev pub start : Timers
start = record {
  mem = λ _. record { started_at = 0; ended_at = 0; proc = 0; next = null };
  live = λ _. false;
  head = null;
  alarm = none;
  caught = false;
  fired = [];
  touched_freed = false;
}

abbrev pub then_start : ℕ → ℕ → ℕ → ℕ → Option Timers → Option Timers
then_start now fresh seconds proc none = none
then_start now fresh seconds proc (some s) = settimeout 4 now fresh seconds proc s

-- `main` up to its loop of `pause`, all at the second `now`; `malloc` returns 1, 2, 3 and 4.
unfoldable pub main : ℕ → Option Timers
unfolding settimeout push_to_timer_list find_place insert_after
main now =
    then_start now 4 3 print2
      (then_start now 3 5 print (then_start now 2 1 print (then_start now 1 2 print (some start))))
