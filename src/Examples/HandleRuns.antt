-- ===== src/Examples/HandleRuns.antt =====
-- A pool in which a task is sent after the stop, since its call had looked at the state before.
use rustservicelib.Base.{◌+◌, ◌≤◌, List, [], ◌∷◌, false, ◌≡◌, refl, total, modify_at}
use rustservicelib.Base.Int.{pos}
use rustservicelib.Pool.Handle
use rustservicelib.Pool.Handle.{
  Step, Shared, stopped, start, add_task, stop, begins, moves, run, step, advance, launch, send,
  first_stage, tasks, sent_start, sent_stop, sent_add,
}
use rustservicelib.Pool.Handle.Stopped.{will_add, run_stopped}

-- A start to its end, an `add_task` up to its launch, and a stop to its end.
abbrev before : List Step
before =
    begins start
    ∷ moves 0 2
    ∷ moves 0 2
    ∷ moves 0 2
    ∷ begins (add_task false (pos 5))
    ∷ moves 1 2
    ∷ moves 1 2
    ∷ begins stop
    ∷ moves 2 2
    ∷ moves 2 2
    ∷ moves 2 2
    ∷ []

abbrev fresh : Shared
fresh = record { pool = Handle.new; calls = [] }

-- The rest of the `add_task`, and one that begins after the stop.
abbrev later : List Step
later = moves 1 2 ∷ moves 1 2 ∷ begins (add_task false (pos 6)) ∷ moves 3 2 ∷ moves 3 2 ∷ []

late_task :
    (run later (run before fresh)).pool.sent ≡ sent_start 2 ∷ sent_stop ∷ sent_add (pos 5) ∷ []
unfolding run step advance launch send first_stage modify_at Handle.new
late_task = refl

is_stopped_before : (run before fresh).pool.state ≡ stopped
unfolding run step advance launch send first_stage modify_at Handle.new
is_stopped_before = refl

run_stopped_example :
    ((run later (run before fresh)).pool.state ≡ stopped)
    × (tasks (run later (run before fresh)).pool.sent
          + total will_add (run later (run before fresh)).calls
        ≤ tasks (run before fresh).pool.sent + total will_add (run before fresh).calls)
run_stopped_example = run_stopped later (run before fresh) is_stopped_before
