-- ===== src/Sockets/Tests.antt =====
-- Runs of the clients and servers of chapter 16
use apue_note.Common.{ℕ, ◌≡◌, zero, suc, refl, true, Option, none, some, List, [], ◌∷◌}
use apue_note.Sockets.{
  done, fails, Net, sock_stream, ServerReplies, initserver, Attempt, connect_retry,
}
use apue_note.Sockets.Leaks.{Promised, initserver-Promised}
use apue_note.Sockets.Backoff.{first_good, Gave, connect_retry-Gave}
use apue_note.Sockets.Client.{Address}
use apue_note.Sockets.Server.{Session, Forked, first_server}
use apue_note.Sockets.Daemon.{Serves, first_server-Serves}

abbrev net : Net
net = record { errno = 0; fds = 2 ∷ 1 ∷ 0 ∷ []; slept = [] }

-- bind fails with errno 98, and close sets errno to 5.
abbrev taken : ServerReplies
taken = record { socket = done 3; bind = fails 98; listen = done tt; closing = λ _. 5 }

abbrev free : ServerReplies
free = record { socket = done 3; bind = done tt; listen = done tt; closing = λ _. 5 }

initserver-Promised_example : Promised net (done 3) (some 98) (initserver sock_stream taken net)
initserver-Promised_example = initserver-Promised sock_stream taken net

-- The peer refuses twice.
abbrev refuses : ℕ → Attempt
refuses zero = record { make = done 3; connect = fails 111; shut = λ e. e }
refuses (suc zero) = record { make = done 3; connect = fails 111; shut = λ e. e }
refuses (suc (suc n)) = record { make = done 3; connect = done tt; shut = λ e. e }

good_test : first_good refuses 8 0 ≡ some 3
unfolding first_good
good_test = refl

connect_retry-Gave_example : Gave (first_good refuses 8 0) 127 net (connect_retry refuses net)
connect_retry-Gave_example = connect_retry-Gave refuses net

abbrev up : Address
up = record { attempts = refuses; stream = done (104 ∷ 105 ∷ []) ∷ done [] ∷ [] }

abbrev one_session : Session
one_session = record { clfd = 4; lines = done ((49 ∷ []) ∷ []); closing = λ e. e }

abbrev message : ℕ → List ℕ
message e = e ∷ []

abbrev child_of : Forked
child_of = record { clfd = 4; pid = done 77; dups = true; execs = true; closing = λ e. e }

abbrev end_of : ℕ → Net → Option ℕ
end_of n w = some n

first_server-Serves_example :
    Serves sock_stream
      (λ _. none)
      end_of
      (some 3)
      net
      (first_server sock_stream (λ _. none) end_of (taken ∷ free ∷ []) net)
first_server-Serves_example =
    first_server-Serves sock_stream (λ _. none) end_of (taken ∷ free ∷ []) net
