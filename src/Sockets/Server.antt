-- ===== src/Sockets/Server.antt =====
-- The servers of chapter_16/16-17.c and chapter_16/16-18.c (streams) and chapter_16/16-20.c (datagrams).
-- The loop of each is over the sessions up to the accept or recvfrom that fails. Nothing looks at what
-- send returns; a SIGPIPE is left out.
use apue_note.Common.{
  ℕ, Bool, true, ◌&&◌, Option, none, some, List, [], ◌∷◌, ◌++◌, ◌==◌, if◌then◌else◌, not,
}
use apue_note.Sockets.{
  Reply, done, fails, Net, SockType, sock_stream, sock_dgram, ServerReplies, initserver, close,
  opened, failed,
}

-- What has been sent, with the descriptor or the address it went to
abbrev pub Sends : Type 0
Sends = List (ℕ × List ℕ)

-- A session of the stream server: the descriptor from accept and what popen gives, the lines of fgets
pub record Session : Type 0 where
  pub clfd : ℕ
  pub lines : Reply (List (List ℕ))
  pub closing : ℕ → ℕ

abbrev pub send_all : ℕ → List (List ℕ) → Sends → Sends
send_all fd [] out = out
send_all fd (l ∷ ls) out = send_all fd ls (out ++ (fd, l) ∷ [])

module _ (message : ℕ → List ℕ) where
  abbrev pub answer_with : ℕ → Reply (List (List ℕ)) → Sends → Sends
  answer_with fd (fails e) out = out ++ (fd, message e) ∷ []
  answer_with fd (done ls) out = send_all fd ls out

  -- serve of 16-17.c up to the accept that fails with errno e
  unfoldable pub serve : List Session → (e : ℕ) → Net → Sends → ℕ × Net × Sends
  serve [] e w out = (1, failed e w, out)
  serve (s ∷ ss) e w out =
      serve ss e (close s.closing s.clfd (opened s.clfd w)) (answer_with s.clfd s.lines out)

  -- serve of 16-20.c: the sender's address and the first line, if there is one
  abbrev pub first_line : ℕ → Reply (List (List ℕ)) → Sends → Sends
  first_line addr (fails e) out = out ++ (addr, message e) ∷ []
  first_line addr (done []) out = out
  first_line addr (done (l ∷ ls)) out = out ++ (addr, l) ∷ []

  unfoldable pub serve_datagrams :
      List (ℕ × Reply (List (List ℕ))) → (e : ℕ) → Net → Sends → ℕ × Net × Sends
  serve_datagrams [] e w out = (1, failed e w, out)
  serve_datagrams ((addr, ls) ∷ ss) e w out = serve_datagrams ss e w (first_line addr ls out)

-- A session of the server that forks: accept's descriptor, fork's reply in the parent, and whether the
-- calls of dup2 and of execl work in the child
pub record Forked : Type 0 where
  pub clfd : ℕ
  pub pid : Reply ℕ
  pub dups : Bool
  pub execs : Bool
  pub closing : ℕ → ℕ

-- Children: the descriptor that is standard output of the program the child runs, if it gets to run it,
-- and whether the parent has waited for it.
pub record Child : Type 0 where
  pub of_pid : ℕ
  pub stdout : Option ℕ
  pub waited : Bool

abbrev pub run_child : Forked → ℕ → Child
run_child s pid = record {
  of_pid = pid;
  stdout = if s.dups && s.execs then some s.clfd else none;
  waited = true;
}

abbrev pub forked :
    Reply ℕ
    → Forked
    → Net
    → List Child
    → (Net → List Child → ℕ × Net × List Child)
    → ℕ × Net × List Child
forked (fails e) s w out next = (1, failed e w, out)
forked (done pid) s w out next = next (close s.closing s.clfd w) (out ++ run_child s pid ∷ [])

unfoldable pub serve_forking : List Forked → (e : ℕ) → Net → List Child → ℕ × Net × List Child
serve_forking [] e w out = (10, failed e w, out)
serve_forking (s ∷ ss) e w out = forked s.pid s (opened s.clfd w) out (serve_forking ss e)

-- The part of the three mains up to the loop over the addresses: argc, malloc, gethostname
pub record Setup : Type 0 where
  pub argc : ℕ
  pub malloc : Bool
  pub gethostname : Bool
  pub addresses : Reply (List ServerReplies)

module _ {A : Type 0} (type : SockType) (serving : Net → A) (exit : ℕ → Net → A) where
  abbrev pub or_serve : Option ℕ × Net → (Net → A) → A
  or_serve (none, w) next = next w
  or_serve (some fd, w) next = serving w

  unfoldable pub first_server : List ServerReplies → Net → A
  first_server [] w = exit 1 w
  first_server (r ∷ rs) w = or_serve (initserver type r w) (first_server rs)

  abbrev pub looked_up : Reply (List ServerReplies) → Net → A
  looked_up (fails e) w = exit 1 w
  looked_up (done rs) w = first_server rs w

  -- main; `serving` is serve, which does not return
  unfoldable pub daemon : Setup → Net → A
  daemon s w =
      if not (s.argc == 1)
      then exit 1 w
      else (if not s.malloc
          then exit 1 w
          else (if not s.gethostname then exit 1 w else looked_up s.addresses w))

-- main of 16-17.c, of 16-18.c and of 16-20.c, with the sessions up to the failure with errno e
unfoldable pub ruptimed : (ℕ → List ℕ) → List Session → (e : ℕ) → Setup → Net → ℕ × Net × Sends
ruptimed message ss e = daemon sock_stream (λ w. serve message ss e w []) (λ n w. (n, w, []))

unfoldable pub ruptimed_forking : List Forked → (e : ℕ) → Setup → Net → ℕ × Net × List Child
ruptimed_forking ss e = daemon sock_stream (λ w. serve_forking ss e w []) (λ n w. (n, w, []))

unfoldable pub ruptimed_datagrams :
    (ℕ → List ℕ) → List (ℕ × Reply (List (List ℕ))) → (e : ℕ) → Setup → Net → ℕ × Net × Sends
ruptimed_datagrams message ss e =
    daemon sock_dgram (λ w. serve_datagrams message ss e w []) (λ n w. (n, w, []))
