-- ===== src/Sockets/Answers.antt =====
-- What the clients and the servers of chapter 16 do with what they are sent
use apue_note.Common.{
  ℕ, ◌≡◌, refl, sym, ap, ◌∙◌, inl, inr, Bool, Bool-cases, true, false, Option, none, some, List, [],
  ◌∷◌, ◌++◌, map, if◌then◌else◌,
}
use mathlib.Core.List.{append_assoc, append-nil}
use apue_note.Sockets.{Reply, done, fails, Net, Retried, out_of_fuel, gave, failed, opened, close}
use apue_note.Sockets.Client.{
  Ended, ended, recv_loop, Address, printed, or_next, try_addresses, ruptime,
}
use apue_note.Sockets.Server.{Sends, Session, send_all, answer_with, serve}
use apue_note.Sockets.Leaks.{remove-head}
use apue_note.Sockets.Backoff.{first_good, Gave, connect_retry-Gave}

-- The bytes up to the end of the stream or a failure, and whether the end came first
abbrev pub bytes : List (Reply (List ℕ)) → List ℕ
bytes [] = []
bytes (fails e ∷ rs) = []
bytes (done [] ∷ rs) = []
bytes (done (b ∷ bs) ∷ rs) = (b ∷ bs) ++ bytes rs

abbrev pub whole_stream : List (Reply (List ℕ)) → Bool
whole_stream [] = true
whole_stream (fails e ∷ rs) = false
whole_stream (done [] ∷ rs) = true
whole_stream (done (b ∷ bs) ∷ rs) = whole_stream rs

recv_loop_lem :
    (rs : List (Reply (List ℕ))) (out : List ℕ)
    → recv_loop rs out ≡ (whole_stream rs, out ++ bytes rs)
unfolding recv_loop
recv_loop_lem [] out = ap (λ o. (true, o)) (sym (append-nil out))
recv_loop_lem (fails e ∷ rs) out = ap (λ o. (false, o)) (sym (append-nil out))
recv_loop_lem (done [] ∷ rs) out = ap (λ o. (true, o)) (sym (append-nil out))
recv_loop_lem (done (b ∷ bs) ∷ rs) out =
    recv_loop_lem rs (out ++ b ∷ bs)
    ∙ ap (λ o. (whole_stream rs, o)) (append_assoc out (b ∷ bs) (bytes rs))

-- The stream of the first address that can be connected to
abbrev pub or_else :
    Option ℕ
    → List (Reply (List ℕ))
    → Option (List (Reply (List ℕ)))
    → Option (List (Reply (List ℕ)))
or_else none s rest = rest
or_else (some fd) s rest = some s

abbrev pub reached : List Address → Option (List (Reply (List ℕ)))
reached [] = none
reached (a ∷ ais) = or_else (first_good a.attempts 8 0) a.stream (reached ais)

abbrev pub ending : Option (List (Reply (List ℕ))) → Ended
ending none = ended 1 []
ending (some s) = ended (if whole_stream s then 0 else 1) (bytes s)

printed_lem : (s : List (Reply (List ℕ))) → printed (recv_loop s []) ≡ ending (some s)
printed_lem s =
    rw (recv_loop_lem s [])
      (elim (Bool-cases (whole_stream s)) [ inl t ↦ rw t refl | inr t ↦ rw t refl ])

or_next_lem :
    (r : Option ℕ) (x : Retried) (s : List (Reply (List ℕ))) (next : Net → Ended)
    (rest : Option (List (Reply (List ℕ)))) (w : Net)
    → Gave r 127 w x
    → ((v : Net) → next v ≡ ending rest)
    → or_next x s next ≡ ending (or_else r s rest)
or_next_lem r out_of_fuel s next rest w g h = absurd g
or_next_lem r (gave none v) s next rest w g h = h v ∙ ap (λ o. ending (or_else o s rest)) g.0
or_next_lem r (gave (some fd) v) s next rest w g h =
    printed_lem s ∙ ap (λ o. ending (or_else o s rest)) g.0

try_addresses_lem : (ais : List Address) (w : Net) → try_addresses ais w ≡ ending (reached ais)
unfolding try_addresses
try_addresses_lem [] w = refl
try_addresses_lem (a ∷ ais) w =
    or_next_lem (first_good a.attempts 8 0) _ a.stream _ (reached ais) w
      (connect_retry-Gave a.attempts w) (λ v. try_addresses_lem ais v)

-- With one argument and a list of addresses, the stream client always ends: it writes all bytes that the
-- first address it can connect to sends up to the end or a failure, with status 0 exactly if the end
-- comes first; and it ends with status 1 and writes nothing if it can connect to no address.
pub ruptime-ending : (ais : List Address) (w : Net) → ruptime 2 (done ais) w ≡ ending (reached ais)
unfolding ruptime
ruptime-ending ais w = try_addresses_lem ais w

send_all_lem :
    (fd : ℕ) (ls : List (List ℕ)) (out : Sends) → send_all fd ls out ≡ out ++ map (λ l. (fd, l)) ls
send_all_lem fd [] out = sym (append-nil out)
send_all_lem fd (l ∷ ls) out =
    send_all_lem fd ls (out ++ (fd, l) ∷ [])
    ∙ append_assoc out ((fd, l) ∷ []) (map (λ l1. (fd, l1)) ls)

module _ (message : ℕ → List ℕ) where
  -- What one session is sent
  abbrev pub reply : ℕ → Reply (List (List ℕ)) → Sends
  reply fd (fails e) = (fd, message e) ∷ []
  reply fd (done ls) = map (λ l. (fd, l)) ls

  abbrev pub replies : List Session → Sends
  replies [] = []
  replies (s ∷ ss) = reply s.clfd s.lines ++ replies ss

  answer_with_lem :
      (fd : ℕ) (r : Reply (List (List ℕ))) (out : Sends)
      → answer_with message fd r out ≡ out ++ reply fd r
  answer_with_lem fd (fails e) out = refl
  answer_with_lem fd (done ls) out = send_all_lem fd ls out

  -- The stream server ends only when accept fails, with status 1; each client has got all lines, or the
  -- message of the errno of popen, on its own descriptor, one client after another; and every client's
  -- descriptor is closed.
  pub serve-replies :
      (ss : List Session) (e : ℕ) (w : Net) (out : Sends)
      → (serve message ss e w out ≡ (1, (serve message ss e w out).1, out ++ replies ss))
        × ((serve message ss e w out).1.fds ≡ w.fds)
        × ((serve message ss e w out).1.errno ≡ e)
  unfolding serve close opened
  serve-replies [] e w out = (ap (λ o. (1, failed e w, o)) (sym (append-nil out)), refl, refl)
  serve-replies (s ∷ ss) e w out =
      let w1 : Net = close s.closing s.clfd (opened s.clfd w) in
      let out1 = answer_with message s.clfd s.lines out in
      let ih = serve-replies ss e w1 out1 in
      let o : out1 ++ replies ss ≡ out ++ replies (s ∷ ss) =
        ap (λ x. x ++ replies ss) (answer_with_lem s.clfd s.lines out)
        ∙ append_assoc out (reply s.clfd s.lines) (replies ss) in
      (
        ih.0 ∙ ap (λ x. (1, (serve message ss e w1 out1).1, x)) o,
        ih.1 ∙ remove-head s.clfd w.fds,
        ih.2,
      )
