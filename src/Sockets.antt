-- ===== src/Sockets.antt =====
-- The calls on sockets of chapter_16/16-12.c and chapter_16/16-16.c. A reply of the system to each call
-- is an argument: a value, or a failure with its errno.
pub mod Server
pub mod Client
pub mod Names
mod Leaks
mod Backoff
mod Answers
mod Daemon
mod Datagrams
mod Decode
mod Tests
use apue_note.Common.{
  ℕ, zero, suc, ◌+◌, ◌*◌, ◌≡◌, Bool, true, false, ◌||◌, Option, none, some, List, [], ◌∷◌, ◌++◌,
  leb, ◌==◌, if◌then◌else◌,
}

pub data Reply (A : Type 0) : Type 0 where
  done : A → Reply A
  fails : ℕ → Reply A

-- What a process keeps of the system: errno, the open descriptors, the last one opened first, and the
-- seconds of its calls of sleep.
pub record Net : Type 0 where
  errno : ℕ
  fds : List ℕ
  slept : List ℕ

abbrev pub remove : ℕ → List ℕ → List ℕ
remove fd [] = []
remove fd (x ∷ xs) = let rest = remove fd xs in if x == fd then xs else x ∷ rest

-- close, which may set errno
unfoldable pub close : (ℕ → ℕ) → ℕ → Net → Net
close sets fd w = record w { fds = remove fd w.fds; errno = sets w.errno }

unfoldable pub opened : ℕ → Net → Net
opened fd w = record w { fds = fd ∷ w.fds }

abbrev pub failed : ℕ → Net → Net
failed e w = record w { errno = e }

pub data SockType : Type 0 where
  sock_stream : SockType
  sock_seqpacket : SockType
  sock_dgram : SockType
  sock_raw : SockType

abbrev pub listens : SockType → Bool
listens sock_stream = true
listens sock_seqpacket = true
listens sock_dgram = false
listens sock_raw = false

pub record ServerReplies : Type 0 where
  socket : Reply ℕ
  bind : Reply (Unit {0})
  listen : Reply (Unit {0})
  closing : ℕ → ℕ

-- From the label errout on
unfoldable pub errout : (ℕ → ℕ) → ℕ → Net → Option ℕ × Net
errout closing fd w = let err = w.errno in (none, record (close closing fd w) { errno = err })

abbrev pub listening : (ℕ → ℕ) → ℕ → Reply (Unit {0}) → Net → Option ℕ × Net
listening closing fd (fails e) w = errout closing fd (failed e w)
listening closing fd (done u) w = (some fd, w)

abbrev pub bound : SockType → ServerReplies → ℕ → Reply (Unit {0}) → Net → Option ℕ × Net
bound type r fd (fails e) w = errout r.closing fd (failed e w)
bound type r fd (done u) w =
    if listens type then listening r.closing fd r.listen w else (some fd, w)

abbrev pub socketed : SockType → ServerReplies → Reply ℕ → Net → Option ℕ × Net
socketed type r (fails e) w = (none, failed e w)
socketed type r (done fd) w = bound type r fd r.bind (opened fd w)

-- `none` is -1.
unfoldable pub initserver : SockType → ServerReplies → Net → Option ℕ × Net
initserver type r w = socketed type r r.socket w

-- One round of connect_retry: what socket and connect reply
pub record Attempt : Type 0 where
  make : Reply ℕ
  connect : Reply (Unit {0})
  shut : ℕ → ℕ

abbrev pub maxsleep : ℕ
maxsleep = 128

abbrev pub sleep : ℕ → Net → Net
sleep n w = record w { slept = w.slept ++ n ∷ [] }

pub data Retried : Type 0 where
  out_of_fuel : Retried
  gave : Option ℕ → Net → Retried

abbrev pub connected : Reply (Unit {0}) → Reply ℕ → (ℕ → ℕ) → ℕ → Net → (Net → Retried) → Retried
connected c (fails e) shut numsec w next = gave none (failed e w)
connected (done u) (done fd) shut numsec w next = gave (some fd) (opened fd w)
connected (fails e) (done fd) shut numsec w next =
    let w1 = close shut fd (failed e (opened fd w)) in
    next (if leb numsec 64 then sleep numsec w1 else w1)

-- The loop of connect_retry with its round number, from the head of the loop
unfoldable pub connect_loop : (ℕ → Attempt) → (fuel numsec round : ℕ) → Net → Retried
connect_loop at zero numsec round w = if leb numsec maxsleep then out_of_fuel else gave none w
connect_loop at (suc fuel) numsec round w =
    let next = connect_loop at fuel (numsec * 2) (round + 1) in
    if leb numsec maxsleep
    then connected (at round).connect (at round).make (at round).shut numsec w next
    else gave none w

unfoldable pub connect_retry : (ℕ → Attempt) → Net → Retried
connect_retry at w = connect_loop at 8 1 0 w
