-- ===== src/Pool/Delay.antt =====
-- src/runtime/pool/delaypool.rs: tasks that run at a time, or earlier when their context is cancelled.
-- An instant is a number up to the range of the clock. The accepted tasks that have not run yet are
-- kept with what `ScheduledDelay` says of them. Metrics are left out.
pub mod Tasks
pub mod Time
use rustservicelib.Base.{
  ◌<◌, ◌++◌, All, total, total-append, one_of, some_eq, sym, subst, ◌↔◌, ◌≢◌, ℕ, suc, ◌+◌, ◌-◌, ◌≤◌,
  List, [], ◌∷◌, Option, none, some, Bool, true, false, ◌==◌, nat_eq, ltb, leb, min, length,
  if◌then◌else◌, ◌||◌, arith, ◌≡◌, refl, ◌∙◌, ◌⊎◌, inl, inr, Bool-cases, Option-cases, ap,
  map_option,
}

pub record ScheduledDelay : Type 0 where
  pub id : ℕ
  pub run_at : ℕ
  pub expedited_by_deadline : Bool

pub record DelayPool : Type 0 where
  pub stopped : Bool
  pub active_tasks : ℕ
  pub tasks : List ScheduledDelay  -- those of the `TaskTracker`
  pub next_task : ℕ

pub data DelayResult : Type 0 where
  delayed : DelayResult
  context_cancelled : DelayResult
  invalid_duration : DelayResult
  resource_stopped : DelayResult

-- Why `wait_ready` returns: the time had come when it looked, or the timer or the context woke it.
pub data Wake : Type 0 where
  due : Bool → Wake
  timer : Wake
  cancellation : Wake

unfoldable pub new : DelayPool
new = record { stopped = false; active_tasks = 0; tasks = []; next_task = 0 }

-- `Instant::checked_add`.
unfoldable pub checked_add : ℕ → ℕ → ℕ → Option ℕ
checked_add range now duration = if leb (now + duration) range then some (now + duration) else none

-- `run_at`, and whether the deadline is what makes it so early.
unfoldable pub schedule_at : Option ℕ → Option ℕ → Option (ℕ × Bool)
schedule_at (some requested) (some deadline) =
    some (min requested deadline, ltb (min requested deadline) requested)
schedule_at (some requested) none = some (requested, ltb requested requested)
schedule_at none (some deadline) = some (deadline, true)
schedule_at none none = none

abbrev pub admit : Option (ℕ × Bool) → DelayPool → DelayResult × DelayPool
admit none p = (invalid_duration, p)
admit (some at) p = if p.stopped then (resource_stopped, p) else (
  delayed,
  record p {
    active_tasks = suc p.active_tasks;
    tasks = record { id = p.next_task; run_at = at.0; expedited_by_deadline = at.1 } ∷ p.tasks;
    next_task = suc p.next_task;
  },
)

-- `DelayPool::delay`, at a time, for a context with its deadline.
unfoldable pub delay : ℕ → ℕ → Bool → Option ℕ → ℕ → DelayPool → DelayResult × DelayPool
delay range now cancelled deadline duration p =
    if cancelled
    then (context_cancelled, p)
    else admit (schedule_at (checked_add range now duration) deadline) p

-- What `wait_ready` tells the execution: whether the task was cancelled.
unfoldable pub wait_ready : Wake → ScheduledDelay → Bool
wait_ready (due cancelled) s = s.expedited_by_deadline || cancelled
wait_ready timer s = s.expedited_by_deadline
wait_ready cancellation s = true

-- The task with an id, and the others.
unfoldable pub take_task : ℕ → List ScheduledDelay → Option (ScheduledDelay × List ScheduledDelay)
take_task i [] = none
take_task i (s ∷ ss) =
    let rest = take_task i ss in
    if s.id == i then some (s, ss) else map_option (λ r. (r.0, s ∷ r.1)) rest

abbrev pub ran :
    Option (ScheduledDelay × List ScheduledDelay) → DelayPool → Option ScheduledDelay × DelayPool
ran none p = (none, p)
ran (some r) p = (some r.0, record p { tasks = r.1; active_tasks = p.active_tasks - 1 })

-- `execute` of a task, which ends it.
unfoldable pub execute : ℕ → DelayPool → Option ScheduledDelay × DelayPool
execute i p = ran (take_task i p.tasks) p

unfoldable pub stop : DelayPool → DelayPool
stop p = record p { stopped = true }

pub data Step : Type 0 where
  delays : ℕ → ℕ → Bool → Option ℕ → ℕ → Step
  executes : ℕ → Step
  stops : Step

-- The task that a call hands over, where the pool takes it.
abbrev pub accepted_task : DelayResult → Option (ℕ × Bool) → ℕ → List ScheduledDelay
accepted_task delayed (some at) id =
    record { id = id; run_at = at.0; expedited_by_deadline = at.1 } ∷ []
accepted_task delayed none id = []
accepted_task context_cancelled at id = []
accepted_task invalid_duration at id = []
accepted_task resource_stopped at id = []

abbrev pub ran_task : ℕ → Option ScheduledDelay → List (ℕ × ScheduledDelay)
ran_task i none = []
ran_task i (some s) = (i, s) ∷ []

-- A step, with the tasks that it accepts, and those that it runs with the ids that they were asked for.
unfoldable pub step : Step → DelayPool → List ScheduledDelay × List (ℕ × ScheduledDelay) × DelayPool
step (delays range now cancelled deadline duration) p =
    let r = delay range now cancelled deadline duration p in
    (accepted_task r.0 (schedule_at (checked_add range now duration) deadline) p.next_task, [], r.1)
step (executes i) p = let r = execute i p in ([], ran_task i r.0, r.1)
step stops p = ([], [], stop p)

unfoldable pub steps :
    List Step → DelayPool → List ScheduledDelay × List (ℕ × ScheduledDelay) × DelayPool
steps [] p = ([], [], p)
steps (s ∷ ss) p = let r = step s p in let t = steps ss r.2 in (r.0 ++ t.0, r.1 ++ t.1, t.2)
