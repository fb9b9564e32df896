-- ===== src/Ftw.antt =====
-- The walk over a file tree of chapter_04/4.22.c. What lstat, opendir and readdir report is a tree; the
-- callback and realloc are parameters. `none` is the end of the process by err_sys or err_dump. The
-- messages of err_ret, and so a failing closedir, are left out.
mod Safe
mod Order
mod Counts
mod Tests
use apue_note.Common.{
  ℕ, zero, suc, ◌+◌, ◌*◌, ◌≡◌, Bool, true, false, ◌&&◌, ◌||◌, not, Option, none, some, List, [],
  ◌∷◌, ◌++◌, length, take, ltb, leb, ◌==◌, if◌then◌else◌,
}

abbrev pub Name : Type 0
Name = List ℕ

-- st_mode & S_IFMT
pub data FileType : Type 0 where
  ifreg : FileType
  ifdir : FileType
  ifblk : FileType
  ifchr : FileType
  ififo : FileType
  iflnk : FileType
  ifsock : FileType
  other_type : FileType

abbrev pub s_isdir : FileType → Bool
s_isdir ifdir = true
s_isdir ifreg = false
s_isdir ifblk = false
s_isdir ifchr = false
s_isdir ififo = false
s_isdir iflnk = false
s_isdir ifsock = false
s_isdir other_type = false

-- What the system reports of a path: lstat fails, or gives a type; then whether opendir works on it,
-- and what readdir returns, the names `.` and `..` included.
mutual
  pub data Entry : Type 0 where
    missing : Entry
    node : FileType → Bool → Items → Entry

  pub data Items : Type 0 where
    end : Items
    item : Name → Entry → Items → Items

-- FTW_F, FTW_D, FTW_DNR and FTW_NS
pub data Ftw : Type 0 where
  ftw_f : Ftw
  ftw_d : Ftw
  ftw_dnr : Ftw
  ftw_ns : Ftw

pub record Tally : Type 0 where
  nreg : ℕ
  ndir : ℕ
  nblk : ℕ
  nchr : ℕ
  nfifo : ℕ
  nslink : ℕ
  nsock : ℕ

-- The callback, over what it keeps: the result is what is returned.
abbrev pub Myfunc : Type 0 → Type 0
Myfunc T = Name → FileType → Ftw → T → Option (T × ℕ)

-- `statbuf` has no type to speak of after a failure of lstat.
unfoldable pub myfunc : Myfunc Tally
myfunc path ifreg ftw_f t = some (record t { nreg = t.nreg + 1 }, 0)
myfunc path ifblk ftw_f t = some (record t { nblk = t.nblk + 1 }, 0)
myfunc path ifchr ftw_f t = some (record t { nchr = t.nchr + 1 }, 0)
myfunc path ififo ftw_f t = some (record t { nfifo = t.nfifo + 1 }, 0)
myfunc path iflnk ftw_f t = some (record t { nslink = t.nslink + 1 }, 0)
myfunc path ifsock ftw_f t = some (record t { nsock = t.nsock + 1 }, 0)
myfunc path ifdir ftw_f t = none
myfunc path other_type ftw_f t = some (t, 0)
myfunc path k ftw_d t = some (record t { ndir = t.ndir + 1 }, 0)
myfunc path k ftw_dnr t = some (t, 0)
myfunc path k ftw_ns t = some (t, 0)

-- The string in fullpath, the size of its memory, and whether a write has gone beyond that.
pub record Walk (T : Type 0) : Type 0 where
  fullpath : Name
  pathlen : ℕ
  overrun : Bool
  tally : T

-- NAME_MAX
abbrev pub name_max : ℕ
name_max = 255

abbrev pub slash : Name
slash = 47 ∷ []

abbrev pub is_dots : Name → Bool
is_dots [] = false
is_dots (c ∷ []) = c == 46
is_dots (c ∷ d ∷ []) = (c == 46) && (d == 46)
is_dots (c ∷ d ∷ e ∷ name) = false

module _ {T B : Type 0} where
  infixl 5 ◌>>=◌
  abbrev pub ◌>>=◌ : Option T → (T → Option B) → Option B
  none >>= f = none
  some x >>= f = f x

module _ {T : Type 0} where
  -- strcpy(&fullpath[n], text)
  unfoldable pub put : ℕ → Name → Walk T → Walk T
  put n text w = record w {
    fullpath = take n w.fullpath ++ text;
    overrun = w.overrun || ltb w.pathlen (n + length text + 1);
  }

  -- fullpath[n] = 0
  unfoldable pub cut : ℕ → Walk T → Walk T
  cut n w = record w { fullpath = take n w.fullpath }

  module _ (realloc : ℕ → Bool) where
    -- Room for a slash and any name behind the path
    unfoldable pub enlarge : Walk T → Option (Walk T)
    enlarge w =
        if ltb w.pathlen (length w.fullpath + name_max + 2)
        then (if realloc (w.pathlen * 2) then some (record w { pathlen = w.pathlen * 2 }) else none)
        else some w

  module _ (func : Myfunc T) where
    -- A call of the callback on the current path
    unfoldable pub call : FileType → Ftw → Walk T → Option (Walk T × ℕ)
    call k type w = func w.fullpath k type w.tally >>= λ r. some (record w { tally = r.0 }, r.1)

  module _ (realloc : ℕ → Bool) (func : Myfunc T) where
    unfoldable mutual
      pub dopath : Entry → Walk T → Option (Walk T × ℕ)
      dopath missing w = call func other_type ftw_ns w
      dopath (node k opens items) w =
          if not (s_isdir k)
          then call func k ftw_f w
          else (call func k ftw_d w >>= λ r.
              if not (r.1 == 0)
              then some r
              else (enlarge realloc r.0 >>= λ w1.
                  let n = length w1.fullpath in
                  let w2 = put n slash w1 in
                  if opens
                  then (entries (n + 1) items w2 >>= λ s. some (cut n s.0, s.1))
                  else call func k ftw_dnr w2))

      -- The loop over readdir, which is entered with ret = 0
      pub entries : ℕ → Items → Walk T → Option (Walk T × ℕ)
      entries n end w = some (w, 0)
      entries n (item name e rest) w =
          if is_dots name
          then entries n rest w
          else (dopath e (put n name w) >>= λ r.
              if not (r.1 == 0) then some r else entries n rest r.0)

    -- path_alloc gives the first size.
    unfoldable pub myftw : (size : ℕ) (pathname : Name) (e : Entry) (t : T) → Option (Walk T × ℕ)
    myftw size pathname e t =
        if leb size (length pathname)
        then (if realloc (length pathname * 2)
            then dopath e (
                put 0 pathname (record {
                  fullpath = [];
                  pathlen = length pathname * 2;
                  overrun = false;
                  tally = t;
                }))
            else none)
        else dopath e
            (put 0 pathname (record { fullpath = []; pathlen = size; overrun = false; tally = t }))

abbrev pub no_files : Tally
no_files = record { nreg = 0; ndir = 0; nblk = 0; nchr = 0; nfifo = 0; nslink = 0; nsock = 0 }

-- The divisor of the percentages
unfoldable pub ntot : Tally → ℕ
ntot t =
    let sum = t.nreg + t.ndir + t.nblk + t.nchr + t.nfifo + t.nslink + t.nsock in
    if sum == 0 then 1 else sum

-- With one argument: the counters and the exit status
unfoldable pub main : (ℕ → Bool) → (size : ℕ) (pathname : Name) (e : Entry) → Option (Tally × ℕ × ℕ)
main realloc size pathname e =
    myftw realloc myfunc size pathname e no_files >>= λ r. some (r.0.tally, ntot r.0.tally, r.1)
