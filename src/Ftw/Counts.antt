-- ===== src/Ftw/Counts.antt =====
-- What the counters of chapter_04/4.22.c hold after a walk
use mathlib.Core.List.{append_assoc, append-nil}
use apue_note.Common.{
  ℕ, ◌+◌, ◌≡◌, ◌<◌, refl, sym, ap, ◌∙◌, inl, inr, Bool, true, false, ◌&&◌, Option, none, some, List,
  [], ◌∷◌, ◌++◌, if◌then◌else◌, Bool-cases, arith,
}
use apue_note.Ftw.{
  Name, FileType, ifreg, ifdir, ifblk, ifchr, ififo, iflnk, ifsock, other_type, s_isdir, Entry,
  missing, node, Items, end, item, ftw_f, myfunc, Tally, Walk, no_files, ntot, main, myftw,
  name_max, slash, is_dots, ◌>>=◌,
}
use apue_note.Ftw.Safe.{ShortNames}
use apue_note.Ftw.Order.{Visit, visits, visits_items, feed, outcome, myftw-visits}

-- The entries of a tree that are counted as of a type; a directory is, readable or not.
abbrev pub same_type : FileType → FileType → Bool
same_type ifreg ifreg = true
same_type ifdir ifdir = true
same_type ifblk ifblk = true
same_type ifchr ifchr = true
same_type ififo ififo = true
same_type iflnk iflnk = true
same_type ifsock ifsock = true
same_type _ _ = false

unfoldable mutual
  pub count : FileType → Entry → ℕ
  count k missing = 0
  count k (node k1 opens items) =
      let own = if same_type k k1 then 1 else 0 in
      let inside = count_items k items in if s_isdir k1 && opens then own + inside else own

  pub count_items : FileType → Items → ℕ
  count_items k end = 0
  count_items k (item name e rest) =
      let own = count k e in
      let more = count_items k rest in if is_dots name then more else own + more

abbrev pub plus : Tally → (FileType → ℕ) → Tally
plus t f = record {
  nreg = t.nreg + f ifreg;
  ndir = t.ndir + f ifdir;
  nblk = t.nblk + f ifblk;
  nchr = t.nchr + f ifchr;
  nfifo = t.nfifo + f ififo;
  nslink = t.nslink + f iflnk;
  nsock = t.nsock + f ifsock;
}

plus-plus : (t : Tally) (f g : FileType → ℕ) → plus (plus t f) g ≡ plus t (λ k. f k + g k)
plus-plus t f g = ground arith

plus-zero : (t : Tally) → plus t (λ _. 0) ≡ t
plus-zero t = ground arith

myfunc-file :
    (p : Name) (k : FileType) (vs : List Visit) (t : Tally)
    → s_isdir k ≡ false
    → feed myfunc (record { path = p; filetype = k; type = ftw_f } ∷ vs) t
      ≡ feed myfunc vs (plus t (λ k1. if same_type k1 k then 1 else 0))
unfolding myfunc
myfunc-file p ifreg vs t h = ap (feed myfunc vs) (ground arith)
myfunc-file p ifdir vs t h = cc
myfunc-file p ifblk vs t h = ap (feed myfunc vs) (ground arith)
myfunc-file p ifchr vs t h = ap (feed myfunc vs) (ground arith)
myfunc-file p ififo vs t h = ap (feed myfunc vs) (ground arith)
myfunc-file p iflnk vs t h = ap (feed myfunc vs) (ground arith)
myfunc-file p ifsock vs t h = ap (feed myfunc vs) (ground arith)
myfunc-file p other_type vs t h = ap (feed myfunc vs) (ground arith)

dir-same : (k : FileType) → s_isdir k ≡ true → k ≡ ifdir
dir-same ifdir h = refl
dir-same ifreg h = cc
dir-same ifblk h = cc
dir-same ifchr h = cc
dir-same ififo h = cc
dir-same iflnk h = cc
dir-same ifsock h = cc
dir-same other_type h = cc

mutual
  unfolding visits count myfunc

  feed-visits :
      (e : Entry) (p : Name) (vs : List Visit) (t : Tally)
      → feed myfunc (visits p e ++ vs) t ≡ feed myfunc vs (plus t (λ k. count k e))
  feed-visits missing p vs t = ap (feed myfunc vs) (ground arith)
  feed-visits (node k opens items) p vs t = elim (Bool-cases (s_isdir k)) [
    | inr file ↦ (let h = myfunc-file p k vs t file in rw file (rw file at h))
    | inl dir ↦ rw (dir-same k dir) (elim (Bool-cases opens) [
      | inl o ↦ rw o (
          feed-visits_items items (p ++ slash) vs (record t { ndir = t.ndir + 1 })
          ∙ ap (feed myfunc vs) (ground arith))
      | inr o ↦ rw o (ap (feed myfunc vs) (ground arith))
    ])
  ]

  feed-visits_items :
      (items : Items) (q : Name) (vs : List Visit) (t : Tally)
      → feed myfunc (visits_items q items ++ vs) t
        ≡ feed myfunc vs (plus t (λ k. count_items k items))
  feed-visits_items end q vs t = ap (feed myfunc vs) (ground arith)
  feed-visits_items (item name e rest) q vs t = elim (Bool-cases (is_dots name)) [
    | inl dots ↦ rw dots (feed-visits_items rest q vs t)
    | inr other ↦ rw other (
        ap (λ xs. feed myfunc xs t) (append_assoc (visits (q ++ name) e) (visits_items q rest) vs)
        ∙ feed-visits e (q ++ name) (visits_items q rest ++ vs) t
        ∙ feed-visits_items rest q vs (plus t (λ k. count k e))
        ∙ ap (feed myfunc vs) (plus-plus t (λ k. count k e) (λ k. count_items k rest)))
  ]

main-outcome :
    (o : Option (Walk Tally × ℕ)) (t : Tally)
    → outcome o ≡ some (t, 0)
    → ◌>>=◌ {B = Tally × ℕ × ℕ} o (λ r. some (r.0.tally, ntot r.0.tally, r.1)) ≡ some (t, ntot t, 0)
main-outcome none t h = cc
main-outcome (some r) t h = ground arith

-- With a realloc that succeeds, more than NAME_MAX bytes from path_alloc and no name longer than
-- NAME_MAX, main ends with status 0, never by err_dump; each counter is the number of entries of its
-- type that the tree shows, a directory counted whether or not it can be read; and the divisor of the
-- percentages is their sum, or 1 if there are none.
pub main-count :
    (realloc : ℕ → Bool) (size : ℕ) (pathname : Name) (e : Entry)
    → ((n : ℕ) → realloc n ≡ true)
    → name_max < size
    → ShortNames e
    → main realloc size pathname e
      ≡ some (plus no_files (λ k. count k e), ntot (plus no_files (λ k. count k e)), 0)
unfolding main
main-count realloc size pathname e grows big short =
    let vs = myftw-visits realloc myfunc grows size pathname e no_files big short in
    let fed =
      ap (λ xs. feed myfunc xs no_files) (sym (append-nil (visits pathname e)))
      ∙ feed-visits e pathname [] no_files in
    main-outcome (myftw realloc myfunc size pathname e no_files) _ (vs ∙ fed)
