-- ===== src/Timeout.antt =====
-- The timeouts of chapter_12/12.4.c. What the calls on threads, malloc and the clock reply are arguments;
-- error numbers are 0 for success, and seconds and nanoseconds are not negative.
mod Once
mod Mutexes
mod Tests
use apue_note.Common.{
  ℕ, zero, suc, ◌+◌, ◌-◌, ◌*◌, ◌≡◌, Bool, true, false, ◌&&◌, ◌||◌, not, Option, none, some, ltb,
  leb, ◌==◌, if◌then◌else◌,
}

pub record Timespec : Type 0 where
  pub tv_sec : ℕ
  pub tv_nsec : ℕ

-- The error numbers of pthread_attr_init, pthread_attr_setdetachstate and pthread_create
pub record ThreadReplies : Type 0 where
  pub attr_init : ℕ
  pub setdetachstate : ℕ
  pub create : ℕ

-- The value of makethread, whether a thread runs, and whether attr has been left undestroyed
pub record Made : Type 0 where
  pub err : ℕ
  pub runs : Bool
  pub attr_left : Bool

unfoldable pub makethread : ThreadReplies → Made
makethread r =
    if not (r.attr_init == 0)
    then record { err = r.attr_init; runs = false; attr_left = false }
    else (if r.setdetachstate == 0
        then record { err = r.create; runs = r.create == 0; attr_left = false }
        else record { err = r.setdetachstate; runs = false; attr_left = false })

-- struct to_info
pub record ToInfo : Type 0 where
  pub to_arg : ℕ
  pub to_wait : Timespec

abbrev pub sectonsec : ℕ
sectonsec = 1000000000

unfoldable pub is_later : Timespec → Timespec → Bool
is_later when now =
    ltb now.tv_sec when.tv_sec || ((when.tv_sec == now.tv_sec) && ltb now.tv_nsec when.tv_nsec)

-- The wait that is stored in to_info
unfoldable pub wait_for : Timespec → Timespec → Timespec
wait_for when now =
    if leb now.tv_nsec when.tv_nsec
    then record { tv_sec = when.tv_sec - now.tv_sec; tv_nsec = when.tv_nsec - now.tv_nsec }
    else record {
      tv_sec = when.tv_sec - now.tv_sec - 1;
      tv_nsec = sectonsec - now.tv_nsec + when.tv_nsec;
    }

-- What timeout has done when it returns: the argument with which it has called the function itself, the
-- block of the thread that it has started, and the number of its blocks that are neither freed nor given
-- to a thread.
pub record Placed : Type 0 where
  pub called : Option ℕ
  pub started : Option ToInfo
  pub lost : ℕ

unfoldable pub timeout :
    (now : Timespec) → (malloc : Bool) → ThreadReplies → (when : Timespec) → (arg : ℕ) → Placed
timeout now malloc r when arg =
    let at_once : Placed = record { called = some arg; started = none; lost = 0 } in
    if is_later when now
    then (if malloc
        then (if (makethread r).err == 0
            then record {
              called = none;
              started = some (record { to_arg = arg; to_wait = wait_for when now });
              lost = 0;
            }
            else at_once)
        else at_once)
    else at_once

-- timeout_helper: how long it sleeps, the argument of its call, and the blocks that it leaves
unfoldable pub timeout_helper : ToInfo → Timespec × ℕ × ℕ
timeout_helper tip = (tip.to_wait, tip.to_arg, 0)

-- A mutex of a type that a flag tells: its owner's number and how often it has been locked
pub record Mutex : Type 0 where
  pub recursive : Bool
  pub owner : Option ℕ
  pub depth : ℕ

abbrev pub relock : (recursive : Bool) (t o depth : ℕ) → Option Mutex
relock r t o d =
    if (t == o) && r then some (record { recursive = r; owner = some o; depth = d + 1 }) else none

abbrev pub lock_by : Bool → Option ℕ → ℕ → ℕ → Option Mutex
lock_by r none d t = some (record { recursive = r; owner = some t; depth = 1 })
lock_by r (some o) d t = relock r t o d

-- pthread_mutex_lock by thread t; `none` is a wait for another unlock, or a deadlock.
unfoldable pub lock : ℕ → Mutex → Option Mutex
lock t m = lock_by m.recursive m.owner m.depth t

unfoldable pub unlock : Mutex → Mutex
unlock m =
    if leb m.depth 1
    then record { recursive = m.recursive; owner = none; depth = 0 }
    else record { recursive = m.recursive; owner = m.owner; depth = m.depth - 1 }

abbrev pub and_then : Option Mutex → (Mutex → Option Mutex) → Option Mutex
and_then none f = none
and_then (some m) f = f m

unfoldable pub retry : ℕ → Mutex → Option Mutex
retry t m = and_then (lock t m) (λ m1. some (unlock m1))

-- What the calls of main reply, and the values of its variables that it does not set
pub record MainReplies : Type 0 where
  pub attr_init : ℕ
  pub settype : ℕ
  pub mutex_init : ℕ
  pub condition : Bool
  pub arg : ℕ
  pub now : Timespec
  pub later : Timespec
  pub malloc : Bool
  pub thread : ThreadReplies

-- How main ends: its status, the mutex, and the thread that has not called its function yet
pub data Ended : Type 0 where
  failed : Ended
  stuck : Ended
  exited : Mutex → Option ToInfo → Ended

abbrev pub unlocked : Option Mutex → Option ToInfo → Ended
unlocked none p = stuck
unlocked (some m) p = exited (unlock m) p

abbrev pub called_here : Option ℕ → Mutex → Option Mutex
called_here none m = some m
called_here (some arg) m = retry 0 m

abbrev pub with_lock : Option Mutex → MainReplies → Ended
with_lock none r = stuck
with_lock (some m) r =
    if r.condition
    then (let p =
          timeout r.later r.malloc r.thread
            (record { tv_sec = r.now.tv_sec + 10; tv_nsec = r.now.tv_nsec }) r.arg in
        unlocked (called_here p.called m) p.started)
    else unlocked (some m) none

-- main, as thread 0; `now` and `later` are what the clock shows to main and then to timeout.
unfoldable pub main : (recursive : Bool) → MainReplies → Ended
main recursive r =
    if not (r.attr_init == 0)
    then failed
    else (if not (r.settype == 0)
        then failed
        else (if not (r.mutex_init == 0)
            then failed
            else with_lock (lock 0 (record { recursive = recursive; owner = none; depth = 0 })) r))
