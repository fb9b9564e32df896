-- ===== src/Rot13/Letters.antt =====
-- `translate` of chapter_14/14.5.3.c on the 256 values of an `unsigned char`
use apue_note.Common.{ℕ, ◌+◌, ◌-◌, ◌%◌, ◌<◌, ◌≤◌, ◌≡◌, ◌⊎◌, false, arith}
use apue_note.Rot13.{isalpha, translate}

-- `translate` is its own inverse, and keeps letters letters.
pub translate-translate :
    (c : ℕ) → c < 256 → (translate (translate c) ≡ c) × (isalpha (translate c) ≡ isalpha c)
unfolding translate
translate-translate c h = ground arith

-- Letters go 13 places on in the alphabet of their case, round the end, and all else stays.
pub translate_lem :
    (c : ℕ)
    → c < 256
    → ((b'A' ≤ c) × (c ≤ b'Z') × (translate c ≡ b'A' + (c - b'A' + 13) % 26))
      ⊎ ((b'a' ≤ c) × (c ≤ b'z') × (translate c ≡ b'a' + (c - b'a' + 13) % 26))
      ⊎ ((isalpha c ≡ false) × (translate c ≡ c))
unfolding translate
translate_lem c h = ground arith
