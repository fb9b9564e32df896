-- ===== src/Ftw/Safe.antt =====
-- The memory of fullpath in the walk of chapter_04/4.22.c: it is large enough for what is written.
use apue_note.Common.{
  ℕ, zero, suc, ◌+◌, ◌*◌, ◌≡◌, ◌≤◌, ◌<◌, refl, sym, ap, ◌∙◌, inl, inr, Bool, false, Option, none,
  some, List, [], ◌∷◌, ◌++◌, length, take, ltb, leb, ◌==◌, Bool-cases, arith, length-append,
  length-take,
}
use apue_note.Ftw.{
  Name, FileType, s_isdir, Entry, missing, node, Items, end, item, ftw_d, ftw_f, ftw_ns, ftw_dnr,
  other_type, Ftw, Myfunc, Walk, name_max, slash, is_dots, ◌>>=◌, put, cut, enlarge, call, dopath,
  entries, myftw,
}

-- A property of the result, if the process goes on
abbrev pub Ends : {A : Type 0} → (A → Type 0) → Option A → Type 0
Ends P none = Unit {0}
Ends P (some a) = P a

pub Ends->>= :
    {A B : Type 0} (P : A → Type 0) (Q : B → Type 0) (o : Option A) (f : A → Option B)
    → Ends P o
    → ((a : A) → P a → Ends Q (f a))
    → Ends Q (o >>= f)
Ends->>= P Q none f h g = tt
Ends->>= P Q (some a) f h g = g a h

Ends-any : {A : Type 0} (o : Option A) → Ends (λ _. Unit {0}) o
Ends-any none = tt
Ends-any (some a) = tt

pub Ends-mono :
    {A : Type 0} (P Q : A → Type 0) (o : Option A) → ((a : A) → P a → Q a) → Ends P o → Ends Q o
Ends-mono P Q none f h = tt
Ends-mono P Q (some a) f h = f a h

-- No name is longer than NAME_MAX.
unfoldable mutual
  pub ShortNames : Entry → Type 0
  ShortNames missing = Unit {0}
  ShortNames (node k opens items) = ShortItems items

  pub ShortItems : Items → Type 0
  ShortItems end = Unit {0}
  ShortItems (item name e rest) = (length name ≤ name_max) × ShortNames e × ShortItems rest

pub take-take_le :
    {A : Type 0} (m n : ℕ) (xs ys : List A)
    → m ≤ n
    → n ≤ length xs
    → take m (take n xs ++ ys) ≡ take m xs
take-take_le zero n xs ys h l = refl
take-take_le (suc m) zero xs ys h l = absurd (omega arith)
take-take_le (suc m) (suc n) [] ys h l = absurd (omega arith)
take-take_le (suc m) (suc n) (x ∷ xs) ys h l =
    ap (λ zs. x ∷ zs) (take-take_le m n xs ys (omega arith) (omega arith))

pub take-take :
    {A : Type 0} (m n : ℕ) (xs : List A) → m ≤ n → n ≤ length xs → take m (take n xs) ≡ take m xs
take-take zero n xs h l = refl
take-take (suc m) zero xs h l = absurd (omega arith)
take-take (suc m) (suc n) [] h l = absurd (omega arith)
take-take (suc m) (suc n) (x ∷ xs) h l =
    ap (λ zs. x ∷ zs) (take-take m n xs (omega arith) (omega arith))

pub take-all : {A : Type 0} (xs : List A) → take (length xs) xs ≡ xs
take-all [] = refl
take-all (x ∷ xs) = ap (λ zs. x ∷ zs) (take-all xs)

module _ {T : Type 0} where
  -- Nothing has been written outside, and the string fits with its NUL.
  abbrev pub Fits : Walk T → Type 0
  Fits w = (w.overrun ≡ false) × (name_max < w.pathlen) × (length w.fullpath < w.pathlen)

  -- From a string of n characters at least: the first n stay, and the memory does not shrink.
  abbrev pub Stays : ℕ → Walk T → Walk T → Type 0
  Stays n w w' =
      Fits w'
      × (take n w'.fullpath ≡ take n w.fullpath)
      × (n ≤ length w'.fullpath)
      × (w.pathlen ≤ w'.pathlen)

  abbrev pub Called : ℕ → Walk T → Walk T × ℕ → Type 0
  Called n w r = Stays n w r.0 × (r.0.fullpath ≡ w.fullpath)

  abbrev pub Left : ℕ → Walk T → Walk T × ℕ → Type 0
  Left n w r = Stays n w r.0

  abbrev pub Enlarged : ℕ → Walk T → Walk T → Type 0
  Enlarged n w w' =
      Stays n w w' × (w'.fullpath ≡ w.fullpath) × (length w'.fullpath + name_max + 2 ≤ w'.pathlen)

  abbrev pub Through : ℕ → ℕ → Walk T → Walk T × ℕ → Type 0
  Through n m w r = Stays n w r.0 × (m ≤ length r.0.fullpath)

  pub put-Fits :
      (n : ℕ) (text : Name) (w : Walk T)
      → Fits w
      → n ≤ length w.fullpath
      → n + length text < w.pathlen
      → Fits (put n text w) × (length (put n text w).fullpath ≡ n + length text)
  unfolding put
  put-Fits n text w f h l =
      let e : length (take n w.fullpath ++ text) ≡ n + length text =
        length-append (take n w.fullpath) text
        ∙ ap (λ k. k + length text) (length-take n w.fullpath h) in
      ((ground arith, f.1, omega arith), e)

  -- Replacing what stands from n on, with room for it
  pub put-Stays :
      (n m : ℕ) (text : Name) (w : Walk T)
      → Fits w
      → n ≤ m
      → m ≤ length w.fullpath
      → m + length text < w.pathlen
      → Stays n w (put m text w)
  unfolding put
  put-Stays n m text w f o h l =
      let p = put-Fits m text w f h l in
      (p.0, take-take_le n m w.fullpath text o h, omega (arith, p.1), omega arith)

  Stays-trans : (n : ℕ) (a b c : Walk T) → Stays n a b → Stays n b c → Stays n a c
  Stays-trans n a b c h k = (k.0, k.1 ∙ h.1, k.2, omega arith)

  Stays-weaken :
      (n m : ℕ) (w w' : Walk T) → n ≤ m → m ≤ length w.fullpath → Stays m w w' → Stays n w w'
  Stays-weaken n m w w' o h s =
      let back = take-take n m w'.fullpath o s.2 in
      let e = ap (take n) s.1 ∙ take-take n m w.fullpath o h in
      (s.0, sym back ∙ e, omega arith, s.3)

  cut-Stays :
      (n m : ℕ) (w w' : Walk T)
      → n ≤ m
      → m ≤ length w'.fullpath
      → Stays n w w'
      → Stays n w (cut m w')
  unfolding cut
  cut-Stays n m w w' o h s =
      let e = length-take m w'.fullpath h in
      ((s.0.0, s.0.1, omega (arith, s.0.2)), take-take n m w'.fullpath o h ∙ s.1, omega arith, s.3)

  module _ (realloc : ℕ → Bool) where
    pub enlarge-Stays :
        (n : ℕ) (w : Walk T)
        → Fits w
        → n ≤ length w.fullpath
        → Ends
            (λ w'.
              Stays n w w'
              × (w'.fullpath ≡ w.fullpath)
              × (length w'.fullpath + name_max + 2 ≤ w'.pathlen))
            (enlarge realloc w)
    unfolding enlarge
    enlarge-Stays n w f h = elim (Bool-cases (ltb w.pathlen (length w.fullpath + name_max + 2))) [
      | inl t ↦ elim (Bool-cases (realloc (w.pathlen * 2))) [
        | inl g ↦
            rw (t, g) (((f.0, omega arith, omega arith), refl, h, omega arith), refl, omega arith)
        | inr g ↦ rw (t, g) tt
      ]
      | inr t ↦ rw t ((f, refl, h, omega arith), refl, ground arith)
    ]

  module _ (func : Myfunc T) where
    pub call-Stays :
        (n : ℕ) (k : FileType) (type : Ftw) (w : Walk T)
        → Fits w
        → n ≤ length w.fullpath
        → Ends (λ r. Stays n w r.0 × (r.0.fullpath ≡ w.fullpath)) (call func k type w)
    unfolding call
    call-Stays n k type w f h =
        Ends->>= (λ _. Unit {0}) _ (func w.fullpath k type w.tally) _
          (Ends-any (func w.fullpath k type w.tally)) (λ a _. ((f, refl, h, omega arith), refl))

  -- The walk at its start
  pub put-start :
      (size : ℕ) (pathname : Name) (t : T)
      → name_max < size
      → length pathname < size
      → Fits (put 0 pathname (record { fullpath = []; pathlen = size; overrun = false; tally = t }))
  unfolding put
  put-start size pathname t big l = (ground arith, big, l)

  module _ (realloc : ℕ → Bool) (func : Myfunc T) where
    mutual
      unfolding dopath put ShortNames

      pub dopath-Stays :
          (n : ℕ) (e : Entry) (w : Walk T)
          → ShortNames e
          → Fits w
          → n ≤ length w.fullpath
          → Ends (Left n w) (dopath realloc func e w)
      dopath-Stays n missing w short f h =
          Ends-mono (Called n w) (Left n w) _ (λ r p. p.0)
            (call-Stays func n other_type ftw_ns w f h)
      dopath-Stays n (node k opens items) w short f h = elim (Bool-cases (s_isdir k)) [
        | inr file ↦
            rw file
              (Ends-mono (Called n w) (Left n w) _ (λ r p. p.0) (call-Stays func n k ftw_f w f h))
        | inl dir ↦ rw dir (
            Ends->>= (Called n w) (Left n w) _ _ (call-Stays func n k ftw_d w f h) (λ r s.
              elim (Bool-cases (r.1 == 0)) [
                | inr stop ↦ rw stop s.0
                | inl on ↦ rw on (
                    Ends->>= (Enlarged n r.0) (Left n w) _ _
                      (enlarge-Stays realloc n r.0 s.0.0 s.0.2)
                      (λ w1 t.
                        let m = length w1.fullpath in
                        let p =
                          put-Stays n m slash w1 t.0.0 t.0.2 (omega arith) (omega (arith, t.2)) in
                        let q = put-Fits m slash w1 t.0.0 (omega arith) (omega (arith, t.2)) in
                        let pre = Stays-trans n w r.0 w1 s.0 t.0 in
                        let here = Stays-trans n w w1 (put m slash w1) pre p in
                        elim (Bool-cases opens) [
                          | inl yes_open ↦ rw yes_open (
                              Ends->>= (Through n (m + 1) (put m slash w1)) (Left n w) _ _
                                (entries-Stays n (m + 1) items (put m slash w1) short p.0
                                  (omega arith) (omega (arith, q.1)) (omega (arith, t.2)))
                                (λ u v.
                                  cut-Stays n m w u.0 (omega arith) (omega (arith, v.1))
                                    (Stays-trans n w (put m slash w1) u.0 here v.0)))
                          | inr no_open ↦ rw no_open (
                              Ends-mono (Called n (put m slash w1)) (Left n w) _
                                (λ u v. Stays-trans n w (put m slash w1) u.0 here v.0)
                                (call-Stays func n k ftw_dnr (put m slash w1) p.0 p.2))
                        ]))
              ]))
      ]

      pub entries-Stays :
          (n m : ℕ) (items : Items) (w : Walk T)
          → ShortItems items
          → Fits w
          → n ≤ m
          → m ≤ length w.fullpath
          → m + name_max < w.pathlen
          → Ends (Through n m w) (entries realloc func m items w)
      entries-Stays n m end w short f o h l = ((f, refl, omega arith, omega arith), h)
      entries-Stays n m (item name e rest) w short f o h l = elim (Bool-cases (is_dots name)) [
        | inl dots ↦ rw dots (entries-Stays n m rest w short.2 f o h l)
        | inr other ↦
            (let p = put-Stays m m name w f (omega arith) h (omega (arith, short.0)) in
              rw other (
                Ends->>= (Left m (put m name w)) (Through n m w) _ _
                  (dopath-Stays m e (put m name w) short.1 p.0 p.2)
                  (λ r s.
                    let on = Stays-trans m w (put m name w) r.0 p s in
                    elim (Bool-cases (r.1 == 0)) [
                      | inr stop ↦ rw stop (Stays-weaken n m w r.0 o h on, on.2)
                      | inl go ↦ rw go (
                          Ends-mono (Through n m r.0) (Through n m w) _
                            (λ u v.
                              (Stays-trans n w r.0 u.0 (Stays-weaken n m w r.0 o h on) v.0, v.1))
                            (entries-Stays n m rest r.0 short.2 on.0 o on.2 (omega arith)))
                    ])))
      ]

    dopath-start :
        (size : ℕ) (pathname : Name) (e : Entry) (t : T)
        → name_max < size
        → length pathname < size
        → ShortNames e
        → Ends
            (λ r. Fits r.0 × (take (length pathname) r.0.fullpath ≡ pathname))
            (dopath realloc func e (
              put 0 pathname
                (record { fullpath = []; pathlen = size; overrun = false; tally = t })))
    unfolding put
    dopath-start size pathname e t big l short =
        let w : Walk T =
          put 0 pathname (record { fullpath = []; pathlen = size; overrun = false; tally = t }) in
        Ends-mono (Left (length pathname) w)
          (λ r. Fits r.0 × (take (length pathname) r.0.fullpath ≡ pathname))
          (dopath realloc func e w) (λ r s. (s.0, s.1 ∙ take-all pathname))
          (dopath-Stays (length pathname) e w short (put-start size pathname t big l) (omega arith))

    -- myftw never writes outside of the memory of fullpath, whatever the callback does, when path_alloc
    -- gives more than NAME_MAX bytes and no name of the tree is longer than NAME_MAX: if the process
    -- goes on, the string fits in the memory and starts with the pathname.
    pub myftw-Fits :
        (size : ℕ) (pathname : Name) (e : Entry) (t : T)
        → name_max < size
        → ShortNames e
        → Ends
            (λ r. Fits r.0 × (take (length pathname) r.0.fullpath ≡ pathname))
            (myftw realloc func size pathname e t)
    unfolding myftw
    myftw-Fits size pathname e t big short = elim (Bool-cases (leb size (length pathname))) [
      | inl long ↦ elim (Bool-cases (realloc (length pathname * 2))) [
        | inl g ↦
            rw (long, g)
              (dopath-start (length pathname * 2) pathname e t (ground arith) (ground arith) short)
        | inr g ↦ rw (long, g) tt
      ]
      | inr fits ↦ rw fits (dopath-start size pathname e t big (ground arith) short)
    ]
