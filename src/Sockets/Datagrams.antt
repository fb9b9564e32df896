-- ===== src/Sockets/Datagrams.antt =====
-- The datagram server of chapter_16/16-20.c and the client of chapter_16/16-19.c
use apue_note.Common.{ℕ, ◌≡◌, refl, sym, ap, ◌∙◌, true, Option, none, some, List, [], ◌∷◌, ◌++◌}
use mathlib.Core.List.{append_assoc, append-nil}
use apue_note.Sockets.{Reply, done, fails, Net, failed, sock_dgram, ServerReplies}
use apue_note.Sockets.Server.{Sends, first_line, serve_datagrams, daemon, ruptimed_datagrams}
use apue_note.Sockets.Daemon.{first_working, Serves, first_server-Serves}

module _ (message : ℕ → List ℕ) where
  -- What one sender gets
  abbrev pub one_reply : ℕ → Reply (List (List ℕ)) → Sends
  one_reply addr (fails e) = (addr, message e) ∷ []
  one_reply addr (done []) = []
  one_reply addr (done (l ∷ ls)) = (addr, l) ∷ []

  abbrev pub all_replies : List (ℕ × Reply (List (List ℕ))) → Sends
  all_replies [] = []
  all_replies (s ∷ ss) = one_reply s.0 s.1 ++ all_replies ss

  first_line_lem :
      (addr : ℕ) (r : Reply (List (List ℕ))) (out : Sends)
      → first_line message addr r out ≡ out ++ one_reply addr r
  first_line_lem addr (fails e) out = refl
  first_line_lem addr (done []) out = sym (append-nil out)
  first_line_lem addr (done (l ∷ ls)) out = refl

  serve_datagrams_lem :
      (ss : List (ℕ × Reply (List (List ℕ)))) (e : ℕ) (w : Net) (out : Sends)
      → serve_datagrams message ss e w out ≡ (1, failed e w, out ++ all_replies ss)
  unfolding serve_datagrams
  serve_datagrams_lem [] e w out = ap (λ o. (1, failed e w, o)) (sym (append-nil out))
  serve_datagrams_lem ((addr, r) ∷ ss) e w out =
      serve_datagrams_lem ss e w (first_line message addr r out)
      ∙ ap (λ o. (1, failed e w, o))
          (ap (λ o. o ++ all_replies ss) (first_line_lem addr r out)
            ∙ append_assoc out (one_reply addr r) (all_replies ss))

  -- What the server has sent and its open descriptors at the end, from the descriptor it serves on
  abbrev pub Answers : Option ℕ → List (ℕ × Reply (List (List ℕ))) → Net → ℕ × Net × Sends → Type 0
  Answers none ss w x = (x.1.fds ≡ w.fds) × (x.2 ≡ [])
  Answers (some fd) ss w x = (x.1.fds ≡ fd ∷ w.fds) × (x.2 ≡ all_replies ss)

  answered :
      (f : Option ℕ) (ss : List (ℕ × Reply (List (List ℕ)))) (e : ℕ) (w : Net) (x : ℕ × Net × Sends)
      → Serves sock_dgram (λ v. serve_datagrams message ss e v []) (λ n v. (n, v, [])) f w x
      → (x.0 ≡ 1) × Answers f ss w x
  answered none ss e w x (v, h, k) = rw k (refl, (h, refl))
  answered (some fd) ss e w x (v, h, k) = rw (k, serve_datagrams_lem ss e v []) (refl, (h, refl))

  -- Once it is set up, the datagram server ends with status 1 in any case; if initserver works on an
  -- address, it has sent each sender one line or the message of the errno of popen, in order, on the first
  -- such address alone; else it has sent nothing and left no descriptor open.
  pub ruptimed_datagrams-Answers :
      (ss : List (ℕ × Reply (List (List ℕ)))) (e : ℕ) (rs : List ServerReplies) (w : Net)
      → ((ruptimed_datagrams message ss e
            (record { argc = 1; malloc = true; gethostname = true; addresses = done rs })
            w).0
          ≡ 1)
        × Answers (first_working sock_dgram rs) ss w (
            ruptimed_datagrams message ss e
              (record { argc = 1; malloc = true; gethostname = true; addresses = done rs })
              w)
  unfolding ruptimed_datagrams daemon
  ruptimed_datagrams-Answers ss e rs w = answered (first_working sock_dgram rs) ss e w _ (
      first_server-Serves sock_dgram (λ v. serve_datagrams message ss e v []) (λ n v. (n, v, [])) rs
        w)
