-- ===== src/Ftw/Order.antt =====
-- The order of the calls of the callback in the walk of chapter_04/4.22.c
use mathlib.Core.Path.{subst}
use apue_note.Common.{
  ℕ, ◌+◌, ◌*◌, ◌≡◌, ◌≤◌, ◌<◌, refl, sym, ap, ◌∙◌, inl, inr, Bool, true, not, Option, none, some,
  List, [], ◌∷◌, ◌++◌, length, take, ltb, leb, ◌==◌, if◌then◌else◌, Bool-cases, arith,
}
use apue_note.Ftw.{
  Name, FileType, s_isdir, Entry, missing, node, Items, end, item, ftw_d, ftw_f, ftw_ns, ftw_dnr,
  other_type, Ftw, Myfunc, Walk, name_max, slash, is_dots, ◌>>=◌, put, cut, enlarge, call, dopath,
  entries, myftw,
}
use apue_note.Ftw.Safe.{
  Ends, Ends-mono, Fits, ShortNames, ShortItems, dopath-Stays, call-Stays, enlarge-Stays, put-Stays,
  put-Fits, take-all, Called, Enlarged, Left, put-start, Stays,
}

-- A call of the callback
pub record Visit : Type 0 where
  pub path : Name
  pub filetype : FileType
  pub type : Ftw

-- The calls on a tree, in order: a directory before what is in it, each name behind its directory's path.
unfoldable mutual
  pub visits : Name → Entry → List Visit
  visits p missing = record { path = p; filetype = other_type; type = ftw_ns } ∷ []
  visits p (node k opens items) =
      let inside = visits_items (p ++ slash) items in
      if not (s_isdir k)
      then record { path = p; filetype = k; type = ftw_f } ∷ []
      else (record { path = p; filetype = k; type = ftw_d }
          ∷ (if opens
              then inside
              else record { path = p ++ slash; filetype = k; type = ftw_dnr } ∷ []))

  pub visits_items : Name → Items → List Visit
  visits_items q end = []
  visits_items q (item name e rest) =
      let first = visits (q ++ name) e in
      let more = visits_items q rest in if is_dots name then more else first ++ more

module _ {A B C : Type 0} where
  >>=-assoc :
      (o : Option A) (f : A → Option C) (h : A → Option B) (k : B → Option C)
      → ((a : A) → f a ≡ (h a >>= k))
      → (o >>= f) ≡ ((o >>= h) >>= k)
  >>=-assoc none f h k e = refl
  >>=-assoc (some a) f h k e = e a

module _ {T : Type 0} where
  -- The calls one after another, up to the first that returns another value than 0
  abbrev pub feed : Myfunc T → List Visit → T → Option (T × ℕ)
  feed func [] t = some (t, 0)
  feed func (v ∷ vs) t =
      let rest = feed func vs in
      (func v.path v.filetype v.type t >>= λ r. if not (r.1 == 0) then some r else rest r.0)

  -- What is left of a walk for its caller
  abbrev pub outcome : Option (Walk T × ℕ) → Option (T × ℕ)
  outcome none = none
  outcome (some r) = some (r.0.tally, r.1)

  module _ (func : Myfunc T) where
    feed-append :
        (xs ys : List Visit) (t : T)
        → feed func (xs ++ ys) t
          ≡ (feed func xs t >>= λ r. if not (r.1 == 0) then some r else feed func ys r.0)
    feed-append [] ys t = refl
    feed-append (x ∷ xs) ys t = >>=-assoc (func x.path x.filetype x.type t) _ _ _ (λ r.
        elim (Bool-cases (r.1 == 0)) [
          | inl go ↦ rw go (feed-append xs ys r.0)
          | inr stop ↦ rw stop (rw stop refl)
        ])

  outcome->>= :
      (o : Option (Walk T × ℕ)) (f : Walk T × ℕ → Option (Walk T × ℕ)) (g : T × ℕ → Option (T × ℕ))
      → Ends (λ r. outcome (f r) ≡ g (r.0.tally, r.1)) o
      → outcome (o >>= f) ≡ (outcome o >>= g)
  outcome->>= none f g h = refl
  outcome->>= (some r) f g h = h

  cut-outcome :
      (n : ℕ) (o : Option (Walk T × ℕ)) → outcome (o >>= λ s. some (cut n s.0, s.1)) ≡ outcome o
  unfolding cut
  cut-outcome n none = refl
  cut-outcome n (some r) = refl

  kept-feed :
      (o : Option (T × ℕ)) (w : Walk T) (g : T × ℕ → Option (T × ℕ))
      → (outcome (o >>= λ r. some (record w { tally = r.0 }, r.1)) >>= g) ≡ (o >>= g)
  kept-feed none w g = refl
  kept-feed (some r) w g = refl

  kept-outcome :
      (o : Option (T × ℕ)) (w : Walk T)
      → outcome (o >>= λ r. some (record w { tally = r.0 }, r.1))
        ≡ (o >>= λ r. if not (r.1 == 0) then some r else some (r.0, 0))
  kept-outcome none w = refl
  kept-outcome (some (t, n)) w = elim (Bool-cases (n == 0)) [
    | inl nought ↦ rw nought (ap (λ k. some (t, k)) (ground arith))
    | inr other ↦ rw other refl
  ]

  module _ (func : Myfunc T) where
    call-outcome :
        (k : FileType) (type : Ftw) (w : Walk T)
        → outcome (call func k type w)
          ≡ feed func (record { path = w.fullpath; filetype = k; type = type } ∷ []) w.tally
    unfolding call
    call-outcome k type w = kept-outcome (func w.fullpath k type w.tally) w

    call-feed :
        (k : FileType) (type : Ftw) (w : Walk T) (vs : List Visit)
        → (outcome (call func k type w) >>= λ r.
            if not (r.1 == 0) then some r else feed func vs r.0)
          ≡ feed func (record { path = w.fullpath; filetype = k; type = type } ∷ vs) w.tally
    unfolding call
    call-feed k type w vs = kept-feed (func w.fullpath k type w.tally) w _

  module _ (realloc : ℕ → Bool) (func : Myfunc T) (grows : (n : ℕ) → realloc n ≡ true) where
    enlarge-grows :
        (w : Walk T) → (w1 : Walk T) × (enlarge realloc w ≡ some w1) × (w1.tally ≡ w.tally)
    unfolding enlarge
    enlarge-grows w = elim (Bool-cases (ltb w.pathlen (length w.fullpath + name_max + 2))) [
      | inl t ↦ rw (t, grows (w.pathlen * 2)) (record w { pathlen = w.pathlen * 2 }, refl, refl)
      | inr t ↦ rw t (w, refl, refl)
    ]

    -- What dopath does after the callback on a directory
    inside-feed :
        (k : FileType) (opens : Bool) (items : Items) (w v : Walk T)
        → Stays 0 w v × (v.fullpath ≡ w.fullpath)
        → ((n : ℕ) (u : Walk T)
            → Fits u
            → n ≤ length u.fullpath
            → n + name_max < u.pathlen
            → outcome (entries realloc func n items u)
              ≡ feed func (visits_items (take n u.fullpath) items) u.tally)
        → outcome (
            enlarge realloc v >>= λ w1.
            let n = length w1.fullpath in
            let w2 = put n slash w1 in
            if opens
            then (entries realloc func (n + 1) items w2 >>= λ s. some (cut n s.0, s.1))
            else call func k ftw_dnr w2)
          ≡ feed func
              (if opens
                then visits_items (w.fullpath ++ slash) items
                else record { path = w.fullpath ++ slash; filetype = k; type = ftw_dnr } ∷ [])
              v.tally
    unfolding put
    inside-feed k opens items w v s loop =
        let g = enlarge-grows v in
        let t : Enlarged 0 v g.0 =
          subst (Ends (Enlarged 0 v)) g.1 (enlarge-Stays realloc 0 v s.0.0 (omega arith)) in
        let m = length g.0.fullpath in
        let w2 : Walk T = put m slash g.0 in
        let p = put-Stays 0 m slash g.0 t.0.0 (omega arith) (omega arith) (omega (arith, t.2)) in
        let q = put-Fits m slash g.0 t.0.0 (omega arith) (omega (arith, t.2)) in
        let path_eq : w2.fullpath ≡ w.fullpath ++ slash =
          ap (λ xs. xs ++ slash) (take-all g.0.fullpath ∙ t.1 ∙ s.1) in
        rw g.1 (elim (Bool-cases opens) [
          | inl o ↦ rw o (
              cut-outcome m (entries realloc func (m + 1) items w2)
              ∙ loop (m + 1) w2 p.0 (omega (arith, q.1)) (omega (arith, t.2))
              ∙ ap (λ xs. feed func (visits_items xs items) w2.tally)
                  (ap (λ n. take n w2.fullpath) (sym q.1) ∙ take-all w2.fullpath ∙ path_eq)
              ∙ ap (feed func (visits_items (w.fullpath ++ slash) items)) g.2)
          | inr o ↦ rw o (
              call-outcome func k ftw_dnr w2
              ∙ ap
                  (λ xs.
                    feed func (record { path = xs; filetype = k; type = ftw_dnr } ∷ []) w2.tally)
                  path_eq
              ∙ ap
                  (feed func
                    (record { path = w.fullpath ++ slash; filetype = k; type = ftw_dnr } ∷ []))
                  g.2)
        ])

    mutual
      unfolding dopath visits put ShortNames

      dopath-feed :
          (e : Entry) (w : Walk T)
          → ShortNames e
          → Fits w
          → outcome (dopath realloc func e w) ≡ feed func (visits w.fullpath e) w.tally
      dopath-feed missing w short f = call-outcome func other_type ftw_ns w
      dopath-feed (node k opens items) w short f = elim (Bool-cases (s_isdir k)) [
        | inr file ↦ rw file (call-outcome func k ftw_f w)
        | inl dir ↦
            (let vs =
                if opens
                then visits_items (w.fullpath ++ slash) items
                else record { path = w.fullpath ++ slash; filetype = k; type = ftw_dnr } ∷ [] in
              rw dir (
                outcome->>= (call func k ftw_d w) _
                  (λ r. if not (r.1 == 0) then some r else feed func vs r.0)
                  (Ends-mono (Called 0 w) _ _
                    (λ r s. elim (Bool-cases (r.1 == 0)) [
                      | inl go ↦
                          rw go (
                            inside-feed k opens items w r.0 s (λ n u. entries-feed n items u short))
                      | inr stop ↦ rw stop refl
                    ])
                    (call-Stays func 0 k ftw_d w f (omega arith)))
                ∙ call-feed func k ftw_d w vs))
      ]

      entries-feed :
          (m : ℕ) (items : Items) (w : Walk T)
          → ShortItems items
          → Fits w
          → m ≤ length w.fullpath
          → m + name_max < w.pathlen
          → outcome (entries realloc func m items w)
            ≡ feed func (visits_items (take m w.fullpath) items) w.tally
      entries-feed m end w short f h l = refl
      entries-feed m (item name e rest) w short f h l = elim (Bool-cases (is_dots name)) [
        | inl dots ↦ rw dots (entries-feed m rest w short.2 f h l)
        | inr other ↦
            (let p = put-Stays m m name w f (omega arith) h (omega (arith, short.0)) in
              let q = put-Fits m name w f h (omega (arith, short.0)) in
              let ih = dopath-feed e (put m name w) short.1 p.0 in
              let s = dopath-Stays realloc func m e (put m name w) short.1 p.0 p.2 in
              rw other (
                outcome->>= (dopath realloc func e (put m name w)) _
                  (λ r.
                    if not (r.1 == 0)
                    then some r
                    else feed func (visits_items (take m w.fullpath) rest) r.0)
                  (Ends-mono (Left m (put m name w)) _ _
                    (λ r k.
                      let e1 = k.1 ∙ p.1 in
                      elim (Bool-cases (r.1 == 0)) [
                        | inl go ↦ rw go (
                            entries-feed m rest r.0 short.2 k.0 k.2 (omega arith)
                            ∙ ap (λ q1. feed func (visits_items q1 rest) r.0.tally) e1)
                        | inr stop ↦ rw stop refl
                      ])
                    s)
                ∙ ap
                    (λ o. o >>= λ r.
                      if not (r.1 == 0)
                      then some r
                      else feed func (visits_items (take m w.fullpath) rest) r.0)
                    ih
                ∙ sym (feed-append func _ _ w.tally)))
      ]

    -- If every realloc succeeds, path_alloc gives more than NAME_MAX bytes and no name is longer than
    -- NAME_MAX, myftw makes the calls of `visits` in order, from the pathname on, up to the first that
    -- returns another value than 0, and returns what the last call returned.
    pub myftw-visits :
        (size : ℕ) (pathname : Name) (e : Entry) (t : T)
        → name_max < size
        → ShortNames e
        → outcome (myftw realloc func size pathname e t) ≡ feed func (visits pathname e) t
    unfolding myftw put
    myftw-visits size pathname e t big short = elim (Bool-cases (leb size (length pathname))) [
      | inl long ↦
          rw (long, grows (length pathname * 2))
            (dopath-feed e _ short
              (put-start (length pathname * 2) pathname t (ground arith) (ground arith)))
      | inr fits ↦ rw fits (dopath-feed e _ short (put-start size pathname t big (ground arith)))
    ]
