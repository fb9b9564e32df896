-- ===== src/Sockets/Client.antt =====
-- The clients of chapter_16/16-16.c (a stream) and chapter_16/16-19.c (a datagram). What a peer sends is
-- the list of the replies of recv; err_quit, err_sys and err_exit end with status 1.
use apue_note.Common.{
  ℕ, Bool, true, false, none, some, List, [], ◌∷◌, ◌++◌, ◌==◌, if◌then◌else◌, not,
}
use apue_note.Sockets.{Reply, done, fails, Net, Attempt, Retried, out_of_fuel, gave, connect_retry}

-- How a program ends: its exit status and what it has written. `hung` is the lack of fuel.
pub data Ended : Type 0 where
  hung : Ended
  ended : ℕ → List ℕ → Ended

-- print_uptime of the stream: the loop over recv, which ends at 0 bytes. `true` is a return, `false`
-- the end by err_sys.
unfoldable pub recv_loop : List (Reply (List ℕ)) → List ℕ → Bool × List ℕ
recv_loop [] out = (true, out)
recv_loop (fails e ∷ rs) out = (false, out)
recv_loop (done [] ∷ rs) out = (true, out)
recv_loop (done (b ∷ bs) ∷ rs) out = recv_loop rs (out ++ b ∷ bs)

pub record Address : Type 0 where
  pub attempts : ℕ → Attempt
  pub stream : List (Reply (List ℕ))

abbrev pub printed : Bool × List ℕ → Ended
printed (true, out) = ended 0 out
printed (false, out) = ended 1 out

abbrev pub or_next : Retried → List (Reply (List ℕ)) → (Net → Ended) → Ended
or_next out_of_fuel s next = hung
or_next (gave none w) s next = next w
or_next (gave (some fd) w) s next = printed (recv_loop s [])

-- The loop of main over what getaddrinfo gives
unfoldable pub try_addresses : List Address → Net → Ended
try_addresses [] w = ended 1 []
try_addresses (a ∷ ais) w = or_next (connect_retry a.attempts w) a.stream (try_addresses ais)

unfoldable pub ruptime : (argc : ℕ) → Reply (List Address) → Net → Ended
ruptime argc (fails e) w = ended 1 []
ruptime argc (done ais) w = if not (argc == 2) then ended 1 [] else try_addresses ais w

-- What sendto and recvfrom reply in print_uptime of the datagram; recvfrom fails with errno EINTR, 4,
-- when the alarm has rung.
pub record Datagram : Type 0 where
  pub make : Reply ℕ
  pub sendto : Reply (Unit {0})
  pub recvfrom : Reply (List ℕ)

-- The exit status, what is written, and the seconds of the alarm that is pending at the end
pub record Asked : Type 0 where
  pub status : ℕ
  pub out : List ℕ
  pub alarm : ℕ

abbrev pub received : Reply (List ℕ) → ℕ → Asked
received (fails e) pending = record {
  status = 1;
  out = [];
  alarm = if not (e == 4) then 0 else pending;
}
received (done bs) pending = record { status = 0; out = bs; alarm = 0 }

-- `rung` says whether the alarm of TIMEOUT seconds has rung during recvfrom.
abbrev pub sent : Reply (Unit {0}) → Reply (List ℕ) → Bool → Asked
sent (fails e) r rung = record { status = 1; out = []; alarm = 0 }
sent (done u) r rung = received r (if rung then 0 else 10)

abbrev pub with_socket : Reply ℕ → Datagram → Bool → Asked → Asked
with_socket (fails e) d rung next = next
with_socket (done fd) d rung next = sent d.sendto d.recvfrom rung

unfoldable pub try_datagrams : List Datagram → Bool → Asked
try_datagrams [] rung = record { status = 1; out = []; alarm = 0 }
try_datagrams (d ∷ ds) rung = with_socket d.make d rung (try_datagrams ds rung)
