-- ===== src/Timers/Push.antt =====
-- `push_to_timer_list` of chapter_10/p5.c puts the node in its place, and the alarm stays that of
-- the first node.
use apue_note.Common.{
  ℕ, zero, suc, ◌<◌, ◌≤◌, ◌≡◌, ◌≢◌, refl, sym, some, List, [], ◌∷◌, length, arith, ltb, ◌==◌,
  Returns, if◌then◌else◌, Bool-cases, inl, inr, true, false,
}
use apue_note.Timers.{
  Timer, Timers, null, write_next, find_place, insert_after, push_to_timer_list, sub_u32,
  alarm_after, set_alarm,
}
use apue_note.Timers.Chain.{
  Fresh, Chain, IsSorted, place, place_behind, Fresh-place_behind, Chain-write_next, IsSorted-place,
  IsSorted-of_deadlines,
}

-- The loop finds a block of the queue behind which the node belongs.
record Found (mem : ℕ → Timer) (node p : ℕ) (qs : List ℕ) (c : ℕ) : Type 0 where
  inside : (x : ℕ) → x ≢ p → Fresh x qs → x ≢ c
  linked : Chain (insert_after node c mem) p (p ∷ place_behind mem node qs)

insert_after_other :
    (node c x : ℕ) (mem : ℕ → Timer) → x ≢ node → x ≢ c → insert_after node c mem x ≡ mem x
unfolding insert_after
insert_after_other node c x mem hn hc = ground arith

-- Nothing but the links changes.
insert_after-ended_at :
    (node c x : ℕ) (mem : ℕ → Timer) → (insert_after node c mem x).ended_at ≡ (mem x).ended_at
unfolding insert_after
insert_after-ended_at node c x mem = ground arith

-- Behind `p` the node takes the place of the next block.
Chain-insert_after :
    (mem : ℕ → Timer) (node p : ℕ) (qs : List ℕ)
    → node ≢ null
    → node ≢ p
    → Fresh node qs
    → Chain mem p (p ∷ qs)
    → Chain (insert_after node p mem) p (p ∷ node ∷ qs)
unfolding insert_after
Chain-insert_after mem node p qs nn np fr ch =
    let apart : p ≢ node = λ e. np (sym e) in
    let moved = Chain-write_next mem node (mem p).next (mem p).next qs fr ch.3 in
    let kept =
      Chain-write_next (write_next node (mem p).next mem) p node (mem p).next qs ch.2 moved in
    let start : (insert_after node p mem node).next ≡ (mem p).next = ground arith in
    (refl, ch.1, (apart, ch.2), (ground arith, nn, fr, rw start kept))

find_place-Found :
    (fuel : ℕ) (mem : ℕ → Timer) (node p : ℕ) (qs : List ℕ)
    → length qs < fuel
    → node ≢ null
    → node ≢ p
    → Fresh node qs
    → Chain mem p (p ∷ qs)
    → (c : ℕ) × (find_place fuel mem (mem node).ended_at p ≡ some c) × Found mem node p qs c
unfolding find_place place_behind
find_place-Found zero mem node p qs f nn np fr ch = absurd (omega arith)
find_place-Found (suc fuel) mem node p [] f nn np fr ch = (
  p,
  ground arith,
  record { inside = λ x h _. h; linked = Chain-insert_after mem node p [] nn np fr ch },
)
find_place-Found (suc fuel) mem node p (q ∷ qs) f nn np fr ch =
    elim (Bool-cases (ltb (mem q).ended_at (mem node).ended_at)) [
      | inl on ↦
          (let rest : Chain mem q (q ∷ qs) = (refl, ch.3.1, ch.3.2, ch.3.3) in
            let (c, e, found) =
              find_place-Found fuel mem node q qs (omega arith) nn fr.0 fr.1 rest in
            let away = found.inside p ch.2.0 ch.2.1 in
            let same = insert_after_other node c p mem (λ h. np (sym h)) away in
            let fresh = Fresh-place_behind mem node p qs (λ h. np (sym h)) ch.2.1 in
            (
              c,
              ground (arith),
              record {
                inside = λ x h fx. found.inside x fx.0 fx.1;
                linked = rw on (refl, ch.1, (ch.2.0, fresh), rw (same, ch.3.0) found.linked);
              },
            ))
      | inr off ↦ (
        p,
        ground arith,
        record {
          inside = λ x h _. h;
          linked = rw off (Chain-insert_after mem node p (q ∷ qs) nn np fr ch);
        },
      )
    ]

-- `head` leads through the blocks `ps`, whose deadlines do not fall.
pub record IsQueue (s : Timers) (ps : List ℕ) : Type 0 where
  pub chain : Chain s.mem s.head ps
  pub sorted : IsSorted s.mem 0 ps

-- What `push_to_timer_list` makes of the queue `ps`, at the time `t`: the new node in its place, the
-- seconds that are left for the first node, and the alarm.
pub record Pushed (s : Timers) (t node : ℕ) (ps : List ℕ) (r : ℕ × Timers) : Type 0 where
  pub queue : IsQueue r.1 (place s.mem node ps)
  pub deadlines : (x : ℕ) → (r.1.mem x).ended_at ≡ (s.mem x).ended_at
  pub answer : r.0 ≡ sub_u32 (r.1.mem r.1.head).ended_at t
  pub rings : r.1.alarm ≡ (if r.1.head == node then alarm_after t r.0 else s.alarm)

module _ (fuel t node : ℕ) (s : Timers) (nn : node ≢ null) (ends : (s.mem node).next ≡ null) where
  push-first : IsQueue s [] → Returns (Pushed s t node []) (push_to_timer_list fuel t node s)
  unfolding push_to_timer_list place
  push-first q = rw q.chain (record {
    queue = record { chain = (refl, nn, tt, ends); sorted = omega arith };
    deadlines = λ x. refl;
    answer = refl;
    rings = ground arith;
  })

  module _ (p : ℕ) (ps : List ℕ) (q : IsQueue s (p ∷ ps)) (fr : Fresh node (p ∷ ps)) where
    Pushed-IsSorted :
        (mem' : ℕ → Timer)
        → ((x : ℕ) → (mem' x).ended_at ≡ (s.mem x).ended_at)
        → IsSorted mem' 0 (place s.mem node (p ∷ ps))
    Pushed-IsSorted mem' same =
        IsSorted-of_deadlines s.mem mem' 0 (place s.mem node (p ∷ ps)) same
          (IsSorted-place s.mem node (p ∷ ps) q.sorted)

    front-Chain :
        ltb (s.mem node).ended_at (s.mem p).ended_at ≡ true
        → Chain (write_next node s.head s.mem) node (place s.mem node (p ∷ ps))
    unfolding place
    front-Chain sooner =
        let start : (write_next node s.head s.mem node).next ≡ s.head = ground arith in
        rw sooner
          (refl, nn, fr, rw start (Chain-write_next s.mem node s.head s.head (p ∷ ps) fr q.chain))

    front_eq :
        ltb (s.mem node).ended_at (s.mem p).ended_at ≡ true
        → push_to_timer_list fuel t node s
          ≡ some (
            sub_u32 (s.mem node).ended_at t,
            set_alarm t
                (sub_u32 (s.mem node).ended_at t)
                (record s { mem = write_next node s.head s.mem; head = node }),
          )
    unfolding push_to_timer_list
    front_eq sooner = ground (arith, q.chain.1, q.chain.0)

    push-front :
        ltb (s.mem node).ended_at (s.mem p).ended_at ≡ true
        → Returns (Pushed s t node (p ∷ ps)) (push_to_timer_list fuel t node s)
    push-front sooner = rw (front_eq sooner) (record {
      queue = record {
        chain = front-Chain sooner;
        sorted = Pushed-IsSorted (write_next node s.head s.mem) (λ x. ground arith);
      };
      deadlines = λ x. ground arith;
      answer = ground arith;
      rings = ground arith;
    })

    behind_eq :
        {c : ℕ}
        → ltb (s.mem node).ended_at (s.mem p).ended_at ≡ false
        → find_place fuel s.mem (s.mem node).ended_at p ≡ some c
        → push_to_timer_list fuel t node s
          ≡ some (sub_u32 (s.mem s.head).ended_at t, record s { mem = insert_after node c s.mem })
    unfolding push_to_timer_list
    behind_eq later found = ground (arith, q.chain.1, q.chain.0)

    push-behind :
        length ps < fuel
        → ltb (s.mem node).ended_at (s.mem p).ended_at ≡ false
        → Returns (Pushed s t node (p ∷ ps)) (push_to_timer_list fuel t node s)
    unfolding place
    push-behind enough later =
        let here : Chain s.mem p (p ∷ ps) = (refl, q.chain.1, q.chain.2, q.chain.3) in
        let (c, e, found) = find_place-Found fuel s.mem node p ps enough nn fr.0 fr.1 here in
        let same = λ (x : ℕ). insert_after-ended_at node c x s.mem in
        rw (behind_eq later e) (record {
          queue = record {
            chain = rw (later, q.chain.0) found.linked;
            sorted = Pushed-IsSorted (insert_after node c s.mem) same;
          };
          deadlines = same;
          answer = rw (same s.head) refl;
          rings = ground (arith, fr.0, q.chain.0);
        })

-- With fuel for the queue, `push_to_timer_list` returns, and puts the node in its place.
pub push-place :
    (fuel t node : ℕ) (s : Timers) (ps : List ℕ)
    → IsQueue s ps
    → length ps ≤ fuel
    → node ≢ null
    → (s.mem node).next ≡ null
    → Fresh node ps
    → Returns (Pushed s t node ps) (push_to_timer_list fuel t node s)
push-place fuel t node s [] q enough nn ends fr = push-first fuel t node s nn ends q
push-place fuel t node s (p ∷ ps) q enough nn ends fr =
    elim (Bool-cases (ltb (s.mem node).ended_at (s.mem p).ended_at)) [
      | inl sooner ↦ push-front fuel t node s nn ends p ps q fr sooner
      | inr later ↦ push-behind fuel t node s nn ends p ps q fr enough later
    ]
