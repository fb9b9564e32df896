-- ===== src/Sockets/Daemon.antt =====
-- The children of the forking server, chapter_16/16-18.c, and main of the three servers of chapter 16
use apue_note.Common.{ℕ, ◌≡◌, refl, sym, ap, ◌∙◌, Option, none, some, List, [], ◌∷◌, ◌++◌}
use mathlib.Core.List.{append_assoc, append-nil}
use apue_note.Sockets.{Reply, done, fails, Net, opened, close, SockType, ServerReplies, initserver}
use apue_note.Sockets.Server.{
  Forked, Child, run_child, forked, serve_forking, or_serve, first_server,
}
use apue_note.Sockets.Leaks.{remove-head, first_failure, Promised, initserver-Promised}

-- What is expected of a run of the forking server: its status and errno, the descriptors that it leaves
-- open, and its children
pub record Run : Type 0 where
  pub status : ℕ
  pub last_errno : ℕ
  pub extra : List ℕ
  pub kids : List Child

abbrev pub with_fork : Reply ℕ → Forked → Run → Run
with_fork (fails e) s rest = record { status = 1; last_errno = e; extra = s.clfd ∷ []; kids = [] }
with_fork (done pid) s rest = record rest { kids = run_child s pid ∷ rest.kids }

abbrev pub expected : List Forked → ℕ → Run
expected [] e = record { status = 10; last_errno = e; extra = []; kids = [] }
expected (s ∷ ss) e = with_fork s.pid s (expected ss e)

abbrev pub Meets : Run → Net → List Child → ℕ × Net × List Child → Type 0
Meets r w out x =
    (x.0 ≡ r.status)
    × (x.1.errno ≡ r.last_errno)
    × (x.1.fds ≡ r.extra ++ w.fds)
    × (x.2 ≡ out ++ r.kids)

forked-Meets :
    (p : Reply ℕ) (s : Forked) (w : Net) (out : List Child)
    (next : Net → List Child → ℕ × Net × List Child) (rest : Run)
    → ((v : Net) (o : List Child) → Meets rest v o (next v o))
    → Meets (with_fork p s rest) w out (forked p s (opened s.clfd w) out next)
unfolding close opened
forked-Meets (fails e) s w out next rest h = (refl, refl, refl, sym (append-nil out))
forked-Meets (done pid) s w out next rest h =
    let k = h (close s.closing s.clfd (opened s.clfd w)) (out ++ run_child s pid ∷ []) in
    (
      k.0,
      k.1,
      k.2 ∙ ap (λ xs. rest.extra ++ xs) (remove-head s.clfd w.fds),
      k.3 ∙ append_assoc out (run_child s pid ∷ []) rest.kids,
    )

-- The forking server has waited for each child before the next accept, and each child that gets to run
-- its program has the client's descriptor as standard output; it ends with status 10 when accept fails
-- and 1 when fork fails; and no client's descriptor but one whose fork failed is open at the end.
pub serve_forking-Meets :
    (ss : List Forked) (e : ℕ) (w : Net) (out : List Child)
    → Meets (expected ss e) w out (serve_forking ss e w out)
unfolding serve_forking
serve_forking-Meets [] e w out = (refl, refl, refl, sym (append-nil out))
serve_forking-Meets (s ∷ ss) e w out =
    forked-Meets s.pid s w out (serve_forking ss e) (expected ss e)
      (λ v o. serve_forking-Meets ss e v o)

-- The descriptor of the first address for which no call of initserver fails
abbrev pub if_works : Option ℕ → Reply ℕ → Option ℕ → Option ℕ
if_works (some e) s rest = rest
if_works none (done fd) rest = some fd
if_works none (fails e) rest = rest

abbrev pub first_working : SockType → List ServerReplies → Option ℕ
first_working type [] = none
first_working type (r ∷ rs) = if_works (first_failure type r) r.socket (first_working type rs)

module _ {A : Type 0} (type : SockType) (serving : Net → A) (exit : ℕ → Net → A) where
  abbrev pub Serves : Option ℕ → Net → A → Type 0
  Serves (some fd) w a = (w1 : Net) × (w1.fds ≡ fd ∷ w.fds) × (a ≡ serving w1)
  Serves none w a = (w1 : Net) × (w1.fds ≡ w.fds) × (a ≡ exit 1 w1)

  Serves-of_fds : (r : Option ℕ) (v w : Net) (a : A) → v.fds ≡ w.fds → Serves r v a → Serves r w a
  Serves-of_fds none v w a e (w1, h, k) = (w1, h ∙ e, k)
  Serves-of_fds (some fd) v w a e (w1, h, k) = (w1, h ∙ ap (λ xs. fd ∷ xs) e, k)

  or_serve-Serves :
      (f : Option ℕ) (s : Reply ℕ) (w : Net) (x : Option ℕ × Net) (next : Net → A) (rest : Option ℕ)
      → Promised w s f x
      → ((v : Net) → Serves rest v (next v))
      → Serves (if_works f s rest) w (or_serve type serving exit x next)
  or_serve-Serves (some e) s w (none, v) next rest p h = Serves-of_fds rest v w (next v) p.2 (h v)
  or_serve-Serves (some e) s w (some fd, v) next rest p h = absurd (cc p.0)
  or_serve-Serves none (done fd) w x next rest p h =
      rw p (record w { fds = fd ∷ w.fds }, refl, refl)
  or_serve-Serves none (fails e) w x next rest p h = absurd p

  -- The loop of main serves on the first address for which no call of initserver fails, with the one
  -- descriptor of that address open and those of the addresses before closed; if there is none it exits
  -- with status 1 and no new descriptor.
  pub first_server-Serves :
      (rs : List ServerReplies) (w : Net)
      → Serves (first_working type rs) w (first_server type serving exit rs w)
  unfolding first_server
  first_server-Serves [] w = (w, refl, refl)
  first_server-Serves (r ∷ rs) w =
      or_serve-Serves (first_failure type r) r.socket w (initserver type r w) _
        (first_working type rs) (initserver-Promised type r w) (λ v. first_server-Serves rs v)
