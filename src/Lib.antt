-- ===== src/Lib.antt =====
-- Verification of the C programs of this repository of notes on "Advanced Programming in the UNIX
-- Environment": the programs that have logic of their own, one module for each.
--
-- Each program stands alone. What they share is the interface of the system: the calls read, write,
-- alarm, signal, fork and the like, and the helpers of apue.h (err_sys and its kin end the process with
-- status 1). None of that code is in the repository, so the answers of the system are arguments of the
-- models: lists of replies, functions of the call's number, or steps that an environment chooses.
--
-- Timers models chapter_10/p5.c: the queue of timers over one alarm, on an explicit store of blocks.
--   settimeout, push_to_timer_list and alarm_proc are the functions of the program; the loop of
--   push_to_timer_list takes fuel, and a queue's length is enough.
-- Sort models chapter_11/11.6.8.c: complong, the merge of the sorted parts, and the threads that meet at
--   the barrier as a step relation. heapsort is a parameter with its documented behaviour.
-- Relay models chapter_10/10.16.3.c (TELL_WAIT and its kin) and chapter_15/15.9.2.c: two processes that
--   take turns by signals, in every interleaving of their steps and of the deliveries of signals.
-- Rot13 models chapter_14/14.5.3.2.c: the buffers of asynchronous requests as a state machine; Rot13 also
--   holds translate, which chapter_14/14.5.3.c has too. A run is a list of passes over the buffers.
-- Streams models the loops from a read call to a write call: chapter_01/1.5.3.c, chapter_03/3.9.c,
--   chapter_10/10.21.c, chapter_14/14.5.3.c, chapter_14/14.2.c and chapter_15/15.3.1.c.
-- Ftw models chapter_04/4.22.c: the walk over a file tree, its path buffer and its counters.
-- Sockets models chapter_16: initserver (16-12.c), connect_retry and the clients (16-16.c, 16-19.c), the
--   servers (16-17.c, 16-18.c, 16-20.c) and the words of the listing of addresses (16.3.c). connect_retry
--   takes fuel 8, one for each of its rounds.
-- Queues models chapter_17/17-3.c and 17-4.c: messages from queues to sockets by helper threads.
-- Timeout models chapter_12/12.4.c: calls that are put off, by a thread that sleeps, and the mutex of main.
-- Copies models chapter_04/p6.c, a copy that keeps holes, and chapter_14/14.8.c, a copy by mapped memory; the
--   loop of the second takes fuel, and the size of the file over COPYINCR, rounded up, is enough.
-- Reports models chapter_10/p2.c, the names of signals, and chapter_08/8.6.c, the report on a child.
-- Stdio models chapter_05/p1.c: the buffering of streams.
-- Nice models chapter_08/8.16.c: processes that count for ten seconds.
-- Sleeps models chapter_10/10.10.c to 10.10.5.c: sleep1, sleep2 and the reads with a time limit, as steps with
--   the seconds and signals that come between any two of them.
-- Masks models chapter_10/10.16.2.c, 10.13.c, 10.15.c and 10.16.c: programs that block signals, one child
--   module for each.
-- Signals models chapter_12/12.8.c: a thread that waits for signals and a main that waits for the thread.
-- Daemons models chapter_13/13.6.c and 13.6.2.c: daemons that read their configuration again on SIGHUP.
-- Adder models chapter_15/15.4.c, 15.4.2.c, 15.4.3.c and 15.4.4.c: a co-process that adds, with sscanf and
--   printf on bytes, and the parent that talks to it over two pipes.
-- Order models chapter_08/8.9.c, 8.9.2.c and 8.9.3.c: a parent and a child that write a byte at a time.
-- Locks models chapter_14/14.3.c, two processes that lock two bytes in opposite orders, and 14.3.2.c, a lock
--   that is refused.
-- Rounds models chapter_10/p6.c: a parent and a child that write the numbers in turn.
-- Lines models the loops over getc and fgets: chapter_01/1.5.4.c, chapter_05/5.8.c and 5.8.2.c,
--   chapter_15/15.3.c and 15.3.2.c, and the shells of chapter_01/1.6.3.c and 1.9.c. Their loops take fuel, and
--   the length of the input is enough.
-- In Sleeps, Masks, Signals, Order, Locks and Rounds a run is the list of its events, the last one first
--   (Common.Runs), and a theorem on `past` speaks of every state that can be reached.
-- Common holds the tests and lists over the native numbers, sums and the process results.
--
-- Numbers of signals, address families and the like, and the statuses of wait, are those of Linux.
--
-- Not modelled: messages on the terminal where no property is about them; failing calls that only
--   end a program, where a component's note says so; the fork handlers of chapter 12; the pagers of
--   chapter 15; the settings of terminals of chapter 18; and the programs that only make a call or two
--   and print what comes back.
pub mod Adder
pub mod Common
pub mod Copies
pub mod Daemons
pub mod Ftw
pub mod Lines
pub mod Locks
pub mod Masks
pub mod Nice
pub mod Order
pub mod Queues
pub mod Relay
pub mod Reports
pub mod Rot13
pub mod Rounds
pub mod Signals
pub mod Sleeps
pub mod Sockets
pub mod Sort
pub mod Stdio
pub mod Streams
pub mod Timeout
pub mod Timers
