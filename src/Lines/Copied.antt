-- ===== src/Lines/Copied.antt =====
-- That the copies by standard I/O are copies
use apue_note.Common.{ℕ, ◌≡◌, ◌⊎◌, Bool, false, List, ◌++◌, if◌then◌else◌}
use apue_note.Lines.{Copy}

-- The input is written whole, with the given end, or one of the writes has failed, behind a part of it.
abbrev pub Copied :
    (works : ℕ → Bool) (at_end : List ℕ → Copy) → (input out : List ℕ) → Copy → Type 0
Copied works at_end input out r =
    (r ≡ at_end (out ++ input))
    ⊎ ((failing : ℕ) × (works failing ≡ false)
        × (part : List ℕ) × (later : List ℕ) × (part ++ later ≡ input)
        × (r ≡ record { status = 1; out = out ++ part }))

abbrev pub pager_ending : (read_fails pclose_works : Bool) → List ℕ → Copy
pager_ending read_fails pclose_works out = record {
  status = if read_fails then 1 else if pclose_works then 0 else 1;
  out = out;
}
