-- ===== src/Nice/Tests.antt =====
-- The end of the ten seconds of chapter_08/8.16.c
use apue_note.Common.{◌≡◌, refl, false, ◌||◌, ◌&&◌, ltb, leb, arith}
use apue_note.Nice.{Timeval, checktime}
use apue_note.Nice.Counting.{micros, checktime-micros}

abbrev last : Timeval
last = record { tv_sec = 110; tv_usec = 900000 }

-- Six seconds after the end, but with fewer microseconds
abbrev overlooked : Timeval
overlooked = record { tv_sec = 116; tv_usec = 100 }

checktime-micros_example : leb (micros last) (micros overlooked) ≡ (
    checktime last overlooked
    || (ltb last.tv_sec overlooked.tv_sec && ltb overlooked.tv_usec last.tv_usec))
checktime-micros_example = checktime-micros last overlooked (omega arith) (omega arith)

overlooked_test : checktime last overlooked ≡ false
unfolding checktime
overlooked_test = refl

abbrev begin : Timeval
begin = record { tv_sec = 100; tv_usec = 900000 }
