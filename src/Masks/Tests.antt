-- ===== src/Masks/Tests.antt =====
-- Runs of the programs of chapter_10 that block signals
use apue_note.Common.{◌≡◌, refl, List, [], ◌∷◌, ◌++◌}
use apue_note.Common.Runs.{after}
use apue_note.Masks.Blocked
use apue_note.Masks.Jumps
use apue_note.Masks.Critical
use apue_note.Masks.Jumps.Printed
use apue_note.Masks.Suspend.Waits.{steps}
use apue_note.Masks.Suspend.{Event, exited, quit, interrupt, comes, start, step}

-- SIGINT and SIGQUIT come between the test of the loop and sigsuspend.
abbrev between : List Event
between = steps 6 ++ (comes quit ∷ comes interrupt ∷ steps 4)

between_exits : (after step start between).pc ≡ exited
unfolding step
between_exits = refl

-- 10.13.c: SIGQUIT twice in the first sleep
abbrev second5 : List Blocked.Event
second5 = Blocked.second ∷ Blocked.second ∷ Blocked.second ∷ Blocked.second ∷ Blocked.second ∷ []

abbrev quiet_end : List Blocked.Event
quiet_end =
    Blocked.goes
    ∷ (second5
        ++ (Blocked.goes
            ∷ Blocked.goes
            ∷ Blocked.goes
            ∷ (second5
                ++ (Blocked.gets_quit ∷ Blocked.gets_quit ∷ Blocked.goes ∷ Blocked.goes
                    ∷ Blocked.goes ∷ []))))

quiet_end_exits : (after Blocked.step Blocked.start quiet_end).pc ≡ Blocked.exited
unfolding Blocked.step
quiet_end_exits = refl

-- 10.15.c: SIGUSR1 comes early, in pause and in its handler.
abbrev jump_run : List Jumps.Event
jump_run =
    Jumps.goes ∷ Jumps.goes ∷ Jumps.goes ∷ Jumps.goes ∷ Jumps.goes ∷ Jumps.second ∷ Jumps.second
    ∷ Jumps.gets_usr1 ∷ Jumps.second ∷ Jumps.second ∷ Jumps.second ∷ Jumps.second ∷ Jumps.goes
    ∷ Jumps.goes ∷ Jumps.goes ∷ Jumps.gets_usr1 ∷ Jumps.goes ∷ Jumps.goes ∷ Jumps.goes
    ∷ Jumps.gets_usr1 ∷ Jumps.goes ∷ Jumps.goes ∷ []

jump_run_exits : (after Jumps.step Jumps.start jump_run).pc ≡ Jumps.exited
unfolding Jumps.step
jump_run_exits = refl

main-printed_example :
    ((after Jumps.step Jumps.start jump_run).out ≡ Printed.lines5)
    × ((after Jumps.step Jumps.start jump_run).mask ≡ Jumps.none_blocked)
main-printed_example = Printed.main-printed jump_run jump_run_exits

-- 10.16.c: SIGINT in the critical region and behind sigsuspend
abbrev region_run : List Critical.Event
region_run =
    Critical.goes ∷ Critical.goes ∷ Critical.goes ∷ Critical.gets_int ∷ Critical.goes
    ∷ Critical.goes ∷ Critical.goes ∷ Critical.gets_int ∷ Critical.goes ∷ Critical.goes
    ∷ Critical.goes ∷ []

region_run_exits : (after Critical.step Critical.start region_run).pc ≡ Critical.exited
unfolding Critical.step
region_run_exits = refl
