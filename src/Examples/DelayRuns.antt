-- ===== src/Examples/DelayRuns.antt =====
-- A delay pool that accepts two tasks, of which one runs, and is stopped.
use rustservicelib.Base.{
  All, Bool, total, one_of, ◌++◌, ◌↔◌, ◌≢◌, ℕ, ◌+◌, ◌≤◌, List, [], ◌∷◌, Option, none, some, true,
  false, ◌≡◌, refl, ◌⊎◌,
}
use rustservicelib.Pool.Delay
use rustservicelib.Pool.Delay.{
  ScheduledDelay, Step, delays, executes, stops, steps, stop, schedule_at, DelayPool,
}
use rustservicelib.Pool.Delay.Tasks.{Inv, steps_conserve}
use rustservicelib.Pool.Delay.Time.{instants, schedule_at_lem}

abbrev history : List Step
history =
    delays 1000 10 false none 5
    ∷ delays 1000 10 false (some 12) 5
    ∷ executes 0
    ∷ stops
    ∷ delays 1000 20 false none 5
    ∷ []

new-Inv : Inv Delay.new
unfolding Delay.new
new-Inv = (refl, tt)

steps_conserve_example :
    Inv (steps history Delay.new).2
    × All (λ x. x.0 ≡ x.1.id) (steps history Delay.new).1
    × ((t : ScheduledDelay → Bool)
        → total (one_of t) Delay.new.tasks + total (one_of t) (steps history Delay.new).0
          ≡ total (one_of t) (steps history Delay.new).2.tasks
            + total (λ x. one_of t x.1) (steps history Delay.new).1)
steps_conserve_example = steps_conserve history Delay.new new-Inv

is_stopped : (stop Delay.new).stopped ≡ true
unfolding stop
is_stopped = refl

abbrev deadline : Option ℕ
deadline = some 12

abbrev requested : Option ℕ
requested = some 15

schedule_at_lem_example :
    ((requested ≡ none) × (deadline ≡ none) × (schedule_at requested deadline ≡ none))
    ⊎ ((at : ℕ × Bool) × (schedule_at requested deadline ≡ some at)
        × ((requested ≡ some at.0) ⊎ (deadline ≡ some at.0))
        × All (λ n. at.0 ≤ n) (instants requested ++ instants deadline)
        × ((at.1 ≡ true) ↔ (requested ≢ some at.0)))
schedule_at_lem_example = schedule_at_lem requested deadline
