-- ===== src/Ftw/Tests.antt =====
-- The walk of chapter_04/4.22.c on a small tree: `d` holds itself as `.`, a file `a`, a directory `b`
-- that opendir refuses and a name `c` that lstat refuses.
use apue_note.Common.{ℕ, ◌≡◌, refl, Bool, true, false, some, [], ◌∷◌, take, arith}
use apue_note.Ftw.{ifreg, ifdir, Entry, missing, node, end, item, myfunc, no_files, main}
use apue_note.Ftw.Safe.{ShortNames, Ends, Fits, myftw-Fits}
use apue_note.Ftw.Order.{visits, feed, outcome, myftw-visits}
use apue_note.Ftw.Counts.{count, plus, main-count}
use apue_note.Ftw.{myftw, ntot}

abbrev small : Entry
small = node ifdir true (
    item (46 ∷ []) missing (
      item (97 ∷ []) (node ifreg false end)
        (item (98 ∷ []) (node ifdir false end) (item (99 ∷ []) missing end))))

abbrev always : ℕ → Bool
always _ = true

small-ShortNames : ShortNames small
unfolding ShortNames
small-ShortNames = (omega arith, tt, (omega arith, tt, (omega arith, tt, (omega arith, tt, tt))))

small-count : count ifdir small ≡ 2
unfolding count
small-count = refl

myftw-Fits_example :
    Ends
      (λ r. Fits r.0 × (take 1 r.0.fullpath ≡ 100 ∷ []))
      (myftw always myfunc 4097 (100 ∷ []) small no_files)
myftw-Fits_example =
    myftw-Fits always myfunc 4097 (100 ∷ []) small no_files (omega arith) small-ShortNames

myftw-visits_example :
    outcome (myftw always myfunc 4097 (100 ∷ []) small no_files)
    ≡ feed myfunc (visits (100 ∷ []) small) no_files
myftw-visits_example =
    myftw-visits always myfunc (λ _. refl) 4097 (100 ∷ []) small no_files (omega arith)
      small-ShortNames

main-count_example :
    main always 4097 (100 ∷ []) small
    ≡ some (plus no_files (λ k. count k small), ntot (plus no_files (λ k. count k small)), 0)
main-count_example =
    main-count always 4097 (100 ∷ []) small (λ _. refl) (omega arith) small-ShortNames
