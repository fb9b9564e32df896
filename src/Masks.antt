-- ===== src/Masks.antt =====
-- The programs of chapter_10 that block signals: Suspend models 10.16.2.c, Critical 10.16.c and
-- Blocked 10.13.c. A handler runs to its end at once when its signal is delivered, and the mask of the
-- process is empty at its start.
pub mod Suspend
pub mod Blocked
pub mod Critical
pub mod Jumps
mod Tests
