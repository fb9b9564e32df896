-- ===== src/Timeout/Tests.antt =====
-- Timeouts of chapter_12/12.4.c at concrete times
use apue_note.Common.{true}
use apue_note.Timeout.{Timespec, ThreadReplies, MainReplies}

abbrev no_thread : ThreadReplies
no_thread = record { attr_init = 0; setdetachstate = 0; create = 11 }

abbrev good_thread : ThreadReplies
good_thread = record { attr_init = 0; setdetachstate = 0; create = 0 }

abbrev early : Timespec
early = record { tv_sec = 5; tv_nsec = 900000000 }

abbrev late : Timespec
late = record { tv_sec = 15; tv_nsec = 100000000 }

abbrev run : MainReplies
run = record {
  attr_init = 0;
  settype = 0;
  mutex_init = 0;
  condition = true;
  arg = 3;
  now = early;
  later = early;
  malloc = true;
  thread = no_thread;
}
