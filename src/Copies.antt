-- ===== src/Copies.antt =====
-- The copy of a file with holes of chapter_04/p6.c, and the copy by mapped memory of chapter_14/14.8.c.
-- The replies of the calls are arguments.
mod Holes
mod Mapped
mod Tests
use apue_note.Common.{
  ℕ, zero, suc, ◌+◌, ◌-◌, ◌*◌, ◌≡◌, Bool, true, false, ◌&&◌, not, Option, none, some, List, [], ◌∷◌,
  ◌++◌, length, take, drop, ltb, ◌==◌, if◌then◌else◌,
}
use apue_note.Common.Process.{Result, ok, exited, Process, pure, exit, err_sys, ◌>>=◌, ◌>>◌}

-- What read gives: bytes, the end, or -1
pub data Got : Type 0 where
  chunk : ℕ → List ℕ → Got
  end : Got
  read_error : Got

-- The file that is written, as the bytes up to its end, and the offset
pub record File : Type 0 where
  pub content : List ℕ
  pub offset : ℕ

abbrev pub zeros : ℕ → List ℕ
zeros zero = []
zeros (suc n) = 0 ∷ zeros n

unfoldable pub write_at : List ℕ → File → File
write_at bs w = record {
  content =
      take w.offset (w.content ++ zeros (w.offset - length w.content))
      ++ bs
      ++ drop (w.offset + length bs) w.content;
  offset = w.offset + length bs;
}

-- A call of write with so many bytes at so much offset: how many it writes, or none for -1
abbrev pub Writes : Type 0
Writes = ℕ → ℕ → Option ℕ

abbrev pub written : Option ℕ → List ℕ → File → File
written none bs w = w
written (some n) bs w = write_at (take n bs) w

-- The flag f and the index l
abbrev pub Place : Type 0
Place = Bool × ℕ

-- The write of one byte, the first of the buffer
abbrev pub one_written : (first : ℕ) → Place → Option ℕ → Process File Place
one_written first p none w = (exited 1, w)
one_written first p (some n) w = (ok (false, p.1), written (some n) (first ∷ []) w)

-- The write behind the inner loop: any value but 0 is taken for a failure.
abbrev pub rest_written : List ℕ → Option ℕ → Process File (Unit {0})
rest_written bs none w = (exited 1, w)
rest_written bs (some n) w = if n == 0 then (ok tt, w) else (exited 1, written (some n) bs w)

module _ (writes : Writes) where
  unfoldable pub write_rest : List ℕ → Place → Process File (Unit {0})
  write_rest bs p w =
      if not (p.1 == length bs)
      then rest_written (drop p.1 bs) (writes w.offset (length bs - p.1)) w
      else (ok tt, w)

module _ (lseeks : ℕ → Bool) (writes : Writes) where
  -- One turn of the inner loop: the index, the byte there, and the first byte of the buffer
  unfoldable pub scan_byte : (all_cnt i b first : ℕ) → Place → Process File Place
  scan_byte all_cnt i b first p w =
      if not p.0 && not (b == 0)
      then (if lseeks (all_cnt + i)
          then (ok (true, i), record w { offset = all_cnt + i })
          else (exited 1, w))
      else (if p.0 && (b == 0) then one_written first p (writes w.offset 1) w else (ok p, w))

  unfoldable pub scan : (all_cnt i first : ℕ) → List ℕ → Place → Process File Place
  scan all_cnt i first [] p = pure p
  scan all_cnt i first (b ∷ bs) p =
      scan_byte all_cnt i b first p >>= λ q. scan all_cnt (i + 1) first bs q

  -- The loop over read; a cnt of -1 runs no inner loop and asks write for more bytes than there are
  -- addresses, which fails.
  unfoldable pub copy_holes : List Got → (all_cnt : ℕ) → Process File ℕ
  copy_holes [] all_cnt = pure 0
  copy_holes (end ∷ gs) all_cnt = pure 0
  copy_holes (read_error ∷ gs) all_cnt = exit 1
  copy_holes (chunk b bs ∷ gs) all_cnt = scan all_cnt 0 b (b ∷ bs) (false, 0) >>= λ p.
      write_rest writes (b ∷ bs) p >>= λ u. copy_holes gs (all_cnt + length (b ∷ bs))

-- main of p6.c from the two calls of open on
unfoldable pub main_holes :
    (argc : ℕ) (opens1 opens2 : Bool) → (ℕ → Bool) → Writes → List Got → Process File ℕ
main_holes argc o1 o2 lseeks writes gs =
    if ltb argc 3
    then exit 1
    else (if not o1 then exit 1 else (if not o2 then exit 1 else copy_holes lseeks writes gs 0))

-- COPYINCR
abbrev pub copyincr : ℕ
copyincr = 1073741824

abbrev pub copysz : (incr left : ℕ) → ℕ
copysz incr left = if ltb incr left then incr else left

-- memcpy between the mappings of copysz bytes at the offset fsz of both files
unfoldable pub memcpy : (fsz size : ℕ) (src dst : List ℕ) → List ℕ
memcpy fsz size src dst = take fsz dst ++ take size (drop fsz src) ++ drop (fsz + size) dst

pub data Mapping : Type 0 where
  no_fuel : Mapping
  ends : ℕ → List ℕ → Mapping

module _ (incr : ℕ) (maps_in maps_out : ℕ → Bool) (src : List ℕ) where
  unfoldable pub map_loop : (fuel fsz : ℕ) → List ℕ → Mapping
  map_loop zero fsz dst = if ltb fsz (length src) then no_fuel else ends 0 dst
  map_loop (suc fuel) fsz dst =
      let size = copysz incr (length src - fsz) in
      let next = map_loop fuel (fsz + size) (memcpy fsz size src dst) in
      if ltb fsz (length src)
      then (if not (maps_in fsz)
          then ends 1 dst
          else (if not (maps_out fsz) then ends 1 dst else next))
      else ends 0 dst

-- main of 14.8.c with two names: what open, fstat and ftruncate reply
unfoldable pub main_mapped :
    (opens1 opens2 stats truncates : Bool) (maps_in maps_out : ℕ → Bool) (src : List ℕ) (fuel : ℕ)
    → Mapping
main_mapped o1 o2 st tr maps_in maps_out src fuel =
    if not o1
    then ends 1 []
    else (if not o2
        then ends 1 []
        else (if not st
            then ends 1 []
            else (if not tr
                then ends 1 []
                else map_loop copyincr maps_in maps_out src fuel 0 (zeros (length src)))))
