-- ===== src/Stdio/Tests.antt =====
-- my_setbuf of chapter_05/p1.c on a terminal
use apue_note.Common.{Bool, true, false, none, some}
use apue_note.Stdio.{Mode, character, Stream, iofbf}

abbrev terminal : Stream
terminal = record {
  is_stderr = false;
  stat = some character;
  mode = iofbf;
  memory = none;
  size = 1024;
}

abbrev works : Mode → Bool
works _ = true
