-- ===== src/Sockets/Leaks.antt =====
-- Descriptors and errno in initserver of chapter_16/16-12.c
use apue_note.Common.{
  ℕ, ◌≡◌, refl, inl, inr, Bool-cases, if◌then◌else◌, Option, none, some, List, ◌∷◌, ◌==◌, arith,
}
use apue_note.Sockets.{
  Reply, done, fails, Net, close, opened, remove, failed, SockType, listens, ServerReplies, errout,
  initserver, socketed, bound, listening,
}

pub remove-head : (fd : ℕ) (xs : List ℕ) → remove fd (fd ∷ xs) ≡ xs
remove-head fd xs = elim (Bool-cases (fd == fd)) [
  | inl t ↦ rw t refl
  | inr f ↦ absurd (ground arith)
]

-- The errno of the first call that fails, if one does
abbrev pub after_listen : Reply (Unit {0}) → Option ℕ
after_listen (fails e) = some e
after_listen (done _) = none

abbrev pub after_bind : SockType → ServerReplies → Reply (Unit {0}) → Option ℕ
after_bind type r (fails e) = some e
after_bind type r (done _) = if listens type then after_listen r.listen else none

abbrev pub after_socket : SockType → ServerReplies → Reply ℕ → Option ℕ
after_socket type r (fails e) = some e
after_socket type r (done _) = after_bind type r r.bind

abbrev pub first_failure : SockType → ServerReplies → Option ℕ
first_failure type r = after_socket type r r.socket

-- What is promised of a result: after a failure with errno e no new descriptor is open and errno is e;
-- else the descriptor is the only new one.
abbrev pub Promised : Net → Reply ℕ → Option ℕ → Option ℕ × Net → Type 0
Promised w s (some e) x = (x.0 ≡ none) × (x.1.errno ≡ e) × (x.1.fds ≡ w.fds)
Promised w (done fd) none x = x ≡ (some fd, record w { fds = fd ∷ w.fds })
Promised w (fails e) none x = ⊥

errout-Promised :
    (closing : ℕ → ℕ) (fd e : ℕ) (w : Net)
    → Promised w (done fd) (some e) (errout closing fd (failed e (opened fd w)))
unfolding errout close opened
errout-Promised closing fd e w = (refl, refl, remove-head fd w.fds)

listening-Promised :
    (closing : ℕ → ℕ) (fd : ℕ) (l : Reply (Unit {0})) (w : Net)
    → Promised w (done fd) (after_listen l) (listening closing fd l (opened fd w))
unfolding opened
listening-Promised closing fd (fails e) w = errout-Promised closing fd e w
listening-Promised closing fd (done u) w = refl

bound-Promised :
    (type : SockType) (r : ServerReplies) (fd : ℕ) (b : Reply (Unit {0})) (w : Net)
    → Promised w (done fd) (after_bind type r b) (bound type r fd b (opened fd w))
unfolding opened
bound-Promised type r fd (fails e) w = errout-Promised r.closing fd e w
bound-Promised type r fd (done u) w = elim (Bool-cases (listens type)) [
  | inl t ↦ rw t (listening-Promised r.closing fd r.listen w)
  | inr f ↦ rw f refl
]

socketed-Promised :
    (type : SockType) (r : ServerReplies) (s : Reply ℕ) (w : Net)
    → Promised w s (after_socket type r s) (socketed type r s w)
socketed-Promised type r (fails e) w = (refl, refl, refl)
socketed-Promised type r (done fd) w = bound-Promised type r fd r.bind w

-- initserver returns the descriptor of socket, open and nothing else changed, if no call that it makes
-- fails; else -1, with no descriptor left open and the errno of the first call that failed, even if
-- close changes errno. listen counts for the two types that listen only.
pub initserver-Promised :
    (type : SockType) (r : ServerReplies) (w : Net)
    → Promised w r.socket (first_failure type r) (initserver type r w)
unfolding initserver
initserver-Promised type r w = socketed-Promised type r r.socket w
