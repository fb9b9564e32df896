-- ===== src/Sleeps/Limits.antt =====
-- What becomes of the reads with a time limit of chapter_10/10.10.4.c and 10.10.5.c when no byte comes
use mathlib.Core.Path.{subst}
use apue_note.Common.{
  ℕ, zero, suc, ◌+◌, ◌-◌, ◌≤◌, ◌<◌, ◌≡◌, refl, sym, ap, ◌∙◌, ◌⊎◌, inl, inr, Bool-cases, Option,
  none, some, List, [], ◌∷◌, ◌++◌, ◌==◌, arith,
}
use apue_note.Common.Runs.{after, after-Inv, after-append}
use apue_note.Sleeps.Reads.{
  Pc, installing, jumping, arming, reading, cancelling, writing, exited, Reader, Event, goes,
  second, fails, input, start, timed_read, plain_read, jumping_read,
}

abbrev pub seconds_of : ℕ → List Event
seconds_of zero = []
seconds_of (suc n) = second ∷ seconds_of n

abbrev at_ : Pc → Option ℕ → List ℕ → Reader
at_ p a line = record { pc = p; alarm = a; line = line }

abbrev Off : Option ℕ → Type 0
Off none = ◌≡◌ {A = ℕ} 0 0
Off (some k) = ⊥

abbrev Ticking : Option ℕ → Type 0
Ticking none = ⊥
Ticking (some k) = (0 < k) × (k ≤ 10)

abbrev Inv : Pc → Option ℕ → Type 0
Inv installing a = Off a
Inv jumping a = Off a
Inv arming a = Off a
Inv reading a = Ticking a
Inv cancelling a = Ticking a
Inv writing a = Off a
Inv (exited n out) a = Off a

ticks :
    (p : Pc) (k : ℕ) (line : List ℕ)
    → Inv p (some k)
    → let s = jumping_read second (at_ p (some k) line) in Inv s.pc s.alarm
unfolding jumping_read timed_read
ticks installing k line h = absurd h
ticks jumping k line h = absurd h
ticks arming k line h = absurd h
ticks writing k line h = absurd h
ticks (exited n out) k line h = absurd h
ticks reading k line h = elim (Bool-cases (k == 1)) [
  | inl e ↦ rw e refl
  | inr e ↦ rw e (ground arith, ground arith)
]
ticks cancelling k line h = elim (Bool-cases (k == 1)) [
  | inl e ↦ rw e refl
  | inr e ↦ rw e (ground arith, ground arith)
]

step-Inv :
    (e : Event) (p : Pc) (a : Option ℕ) (line : List ℕ)
    → Inv p a
    → let s = jumping_read e (at_ p a line) in Inv s.pc s.alarm
unfolding jumping_read timed_read
step-Inv goes installing a line h = h
step-Inv goes jumping a line h = h
step-Inv goes arming a line h = (omega arith, omega arith)
step-Inv goes reading a line h = h
step-Inv goes cancelling a line h = refl
step-Inv goes writing a line h = h
step-Inv goes (exited n out) a line h = h
step-Inv second p none line h = h
step-Inv second p (some k) line h = ticks p k line h
step-Inv fails installing a line h = h
step-Inv fails jumping a line h = h
step-Inv fails arming a line h = h
step-Inv fails reading a line h = refl
step-Inv fails cancelling a line h = h
step-Inv fails writing a line h = h
step-Inv fails (exited n out) a line h = h
step-Inv (input bs) installing a line h = h
step-Inv (input bs) jumping a line h = h
step-Inv (input bs) arming a line h = h
step-Inv (input bs) reading a line h = h
step-Inv (input bs) cancelling a line h = h
step-Inv (input bs) writing a line h = h
step-Inv (input bs) (exited n out) a line h = h

reader-Inv : (past : List Event) → let s = after jumping_read start past in Inv s.pc s.alarm
reader-Inv past =
    after-Inv jumping_read start (λ _ s. Inv s.pc s.alarm) refl
      (λ e _ s h. step-Inv e s.pc s.alarm s.line h) past

abbrev Gone : Reader → Type 0
Gone s = (n : ℕ) × (out : List ℕ) × (s.pc ≡ exited n out) × Off s.alarm

-- After three steps the process reads, with at most ten seconds left, or it has ended.
abbrev Settled : ℕ → Reader → Type 0
Settled j s =
    ((k : ℕ) × (line : List ℕ) × (s ≡ at_ reading (some k) line) × (0 < k) × (k + j ≤ 10)) ⊎ Gone s

settles :
    (p : Pc) (a : Option ℕ) (line : List ℕ)
    → Inv p a
    → Settled 0 (after jumping_read (at_ p a line) (goes ∷ goes ∷ goes ∷ []))
unfolding jumping_read timed_read
settles installing a line h = inl (10, line, refl, omega arith, omega arith)
settles jumping a line h = inl (10, line, refl, omega arith, omega arith)
settles arming a line h = inl (10, line, refl, omega arith, omega arith)
settles reading none line h = absurd h
settles reading (some k) line (pos, le) = inl (k, line, refl, pos, omega arith)
settles cancelling a line h = inr (0, line, refl, refl)
settles writing a line h = inr (0, line, refl, h)
settles (exited n out) a line h = inr (n, out, refl, h)

Gone-step :
    (e : Event) (p : Pc) (a : Option ℕ) (line : List ℕ) (n : ℕ) (out : List ℕ)
    → p ≡ exited n out
    → Off a
    → Gone (jumping_read e (at_ p a line))
unfolding jumping_read timed_read
Gone-step goes p a line n out e off = rw e (n, out, refl, off)
Gone-step second p none line n out e off = (n, out, e, refl)
Gone-step second p (some k) line n out e off = absurd off
Gone-step fails p a line n out e off = rw e (n, out, refl, off)
Gone-step (input bs) p a line n out e off = rw e (n, out, refl, off)

counts :
    (j k : ℕ) (line : List ℕ)
    → 0 < k
    → k + j ≤ 10
    → Settled (suc j) (jumping_read second (at_ reading (some k) line))
unfolding jumping_read timed_read
counts j k line pos le = elim (Bool-cases (k == 1)) [
  | inl e ↦ rw e (inr (1, [], refl, refl))
  | inr e ↦ rw e (inl (k - 1, line, refl, ground arith, omega arith))
]

Settled-second : (j : ℕ) (s : Reader) → Settled j s → Settled (suc j) (jumping_read second s)
Settled-second j s (inl (k, line, e, pos, le)) =
    subst (λ t. Settled (suc j) (jumping_read second t)) (sym e) (counts j k line pos le)
Settled-second j s (inr (n, out, e, off)) = inr (Gone-step second s.pc s.alarm s.line n out e off)

Settled-seconds :
    (s : Reader) → Settled 0 s → (j : ℕ) → Settled j (after jumping_read s (seconds_of j))
Settled-seconds s h zero = h
Settled-seconds s h (suc j) =
    Settled-second j (after jumping_read s (seconds_of j)) (Settled-seconds s h j)

Settled-Gone : (s : Reader) → Settled 10 s → (n : ℕ) × (out : List ℕ) × (s.pc ≡ exited n out)
Settled-Gone s (inl (k, line, e, pos, le)) = absurd (omega arith)
Settled-Gone s (inr (n, out, e, off)) = (n, out, e)

jumping_read-ends :
    (past : List Event)
    → (n : ℕ) × (out : List ℕ) × ((after jumping_read start
          (seconds_of 10 ++ (goes ∷ goes ∷ goes ∷ past))).pc
        ≡ exited n out)
jumping_read-ends past =
    let s = after jumping_read start past in
    rw (after-append jumping_read start (seconds_of 10) (goes ∷ goes ∷ goes ∷ past)) (
      Settled-Gone _ (
        Settled-seconds (after jumping_read s (goes ∷ goes ∷ goes ∷ []))
          (settles s.pc s.alarm s.line (reader-Inv past)) 10))

reads-second :
    (a : Option ℕ) → (b : Option ℕ) × (plain_read second (at_ reading a []) ≡ at_ reading b [])
unfolding plain_read timed_read
reads-second none = (none, refl)
reads-second (some n) = elim (Bool-cases (n == 1)) [
  | inl e ↦ (none, rw e refl)
  | inr e ↦ (some (n - 1), rw e refl)
]

starts : after plain_read start (goes ∷ goes ∷ []) ≡ at_ reading (some 10) []
unfolding plain_read timed_read
starts = refl

waits :
    (j : ℕ)
    → (a : Option ℕ) × (after plain_read start (seconds_of j ++ (goes ∷ goes ∷ []))
        ≡ at_ reading a [])
waits zero = (some 10, starts)
waits (suc j) =
    let (a, e) = waits j in let (b, next) = reads-second a in (b, ap (plain_read second) e ∙ next)

finishes :
    (a : Option ℕ) (bs : List ℕ)
    → (after plain_read (at_ reading a []) (goes ∷ goes ∷ input bs ∷ [])).pc ≡ exited 0 bs
unfolding plain_read timed_read
finishes a bs = refl

plain_read-waits :
    (j : ℕ) (bs : List ℕ)
    → (after plain_read start (goes ∷ goes ∷ input bs ∷ (seconds_of j ++ (goes ∷ goes ∷ [])))).pc
      ≡ exited 0 bs
plain_read-waits j bs =
    let (a, e) = waits j in
    ap (λ s. (after plain_read s (goes ∷ goes ∷ input bs ∷ [])).pc) e ∙ finishes a bs

-- The limit of ten seconds holds for the program that jumps and not for the other. Whatever has come
-- before, after three steps and ten more seconds the first has exited. The second reads and writes the
-- bytes that come after any number of seconds, and exits with status 0.
pub timed_read-limits :
    (past : List Event) (j : ℕ) (bs : List ℕ)
    → ((n : ℕ) × (out : List ℕ) × ((after jumping_read start
            (seconds_of 10 ++ (goes ∷ goes ∷ goes ∷ past))).pc
          ≡ exited n out))
      × ((after plain_read start (goes ∷ goes ∷ input bs ∷ (seconds_of j ++ (goes ∷ goes ∷ [])))).pc
          ≡ exited 0 bs)
timed_read-limits past j bs = (jumping_read-ends past, plain_read-waits j bs)
