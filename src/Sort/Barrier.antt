-- ===== src/Sort/Barrier.antt =====
-- The threads of chapter_11/11.6.8.c: `thr_fn` sorts a part and waits at the barrier; `main` waits
-- there too, and merges. A step is one thread's work between two calls that other threads can see.
use apue_note.Common.{ℕ, ◌+◌, ◌*◌, ◌<◌, ◌≤◌, ◌≡◌, ◌≢◌, ◌⊎◌, List, update}
use apue_note.Sort.{complong, greater, merge}
use apue_note.Sort.Merge.{count_from}

-- The library's `heapsort` on the `tnum` numbers from `base` on, with `complong`.
pub record Heapsort (tnum : ℕ) : Type 0 where
  pub sort : (base : ℕ) → (ℕ → ℕ) → ℕ → ℕ
  pub ordered :
      (base : ℕ) (nums : ℕ → ℕ) (i j : ℕ)
      → base ≤ i
      → i ≤ j
      → j < base + tnum
      → complong (sort base nums i) (sort base nums j) ≢ greater
  pub outside :
      (base : ℕ) (nums : ℕ → ℕ) (i : ℕ) → (i < base) ⊎ (base + tnum ≤ i) → sort base nums i ≡ nums i
  pub same_numbers :
      (base : ℕ) (nums : ℕ → ℕ) (x : ℕ)
      → count_from (sort base nums) x base tnum ≡ count_from nums x base tnum

-- Where a thread stands in `thr_fn`.
pub data Stage : Type 0 where
  absent sorting waiting passed : Stage

-- Where `main` stands; `merged` comes with `snums`.
pub data MainStage : Type 0 where
  creating waits released : MainStage
  merged : List ℕ → MainStage

-- `arrived` is the count of the barrier.
pub record System : Type 0 where
  pub nums : ℕ → ℕ
  pub created : ℕ
  pub arrived : ℕ
  pub stage : ℕ → Stage
  pub main : MainStage

abbrev pub start : (ℕ → ℕ) → System
start nums = record { nums = nums; created = 0; arrived = 0; stage = λ _. absent; main = creating }

module _ (nthr tnum : ℕ) (h : Heapsort tnum) where
  -- The barrier lets all go when `nthr + 1` have arrived.
  pub data Step (s : System) : System → Type 0 where
    create :
        s.main ≡ creating
        → s.created < nthr
        → Step s (record s { created = s.created + 1; stage = update s.stage s.created sorting })
    sort_part :
        (i : ℕ)
        → s.stage i ≡ sorting
        → Step s (record s {
          nums = h.sort (i * tnum) s.nums;
          arrived = s.arrived + 1;
          stage = update s.stage i waiting;
        })
    main_waits :
        s.main ≡ creating
        → s.created ≡ nthr
        → Step s (record s { arrived = s.arrived + 1; main = waits })
    release :
        s.arrived ≡ nthr + 1
        → s.main ≡ waits
        → Step s (record s { arrived = 0; stage = λ _. passed; main = released })
    merge_parts :
        (junk : ℕ)
        → s.main ≡ released
        → Step s (record s { main = merged (merge tnum s.nums nthr junk) })

  pub data Reach (nums : ℕ → ℕ) : System → Type 0 where
    begin : Reach nums (start nums)
    next : {s t : System} → Reach nums s → Step s t → Reach nums t
