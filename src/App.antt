-- ===== src/App.antt =====
-- src/runtime/serviceapp.rs: the life of a service. The resources are numbers. What a start, a
-- shutdown job, a server or the clock does is an answer that the environment gives. Names in errors,
-- routes, metrics and traces are left out.
pub mod Phases
pub mod Stop
pub mod Retry
pub mod Ends
pub mod Operations
pub mod Start
pub mod Cleanup
use Prim.Native.String.{String}
use rustservicelib.Base.{
  ℕ, zero, suc, ◌+◌, List, [], ◌∷◌, ◌++◌, map, Option, none, some, Bool, true, false, ◌==◌, Eq,
  nat_eq, lookup, insert, is_some, if◌then◌else◌, not, ◌&&◌, ◌||◌,
}

pub data RuntimeError : Type 0 where
  context_cancelled : RuntimeError
  resource_already_started : RuntimeError
  resource_stopped : RuntimeError
  duplicate_resource : RuntimeError
  transport : String → RuntimeError
  other_error : String → RuntimeError

-- A result without a value: an error, or none.
abbrev pub Result : Type 0
Result = Option RuntimeError

pub data State : Type 0 where
  created : State
  starting : State
  running : State
  stopping : State
  stopped : State

-- What a shutdown job does.
pub data Operation : Type 0 where
  stop_source : ℕ → Operation
  stop_component : ℕ → Operation
  stop_task_pool : ℕ → Operation
  stop_priority_task_pool : ℕ → Operation
  stop_delay_pool : Operation
  stop_storage : ℕ → Operation
  drain_parallel : Operation
  stop_sink : ℕ → Operation
  stop_runtime_metrics : Operation
  shutdown_metrics : Operation
  shutdown_tracing : Operation
  shutdown_logs : Operation

pub record ShutdownJob : Type 0 where
  pub operation : Operation
  pub task : Bool  -- a task runs it, or has ended and was not awaited
  pub completed : Bool

pub record ShutdownProgress : Type 0 where
  pub phase : ℕ
  pub phases : Option (List (List ShutdownJob))
  pub failure : Option String

pub record ServiceApp : Type 0 where
  pub task_pools : List ℕ
  pub priority_task_pools : List ℕ
  pub storages : List ℕ
  pub endpoint_consumers : List ℕ
  pub sources : List (ℕ × ℕ)  -- by id
  pub sinks : List (ℕ × ℕ)
  pub components : List ℕ
  pub grpc_routes : Bool
  pub grpc_task : Bool
  pub http_task : Bool
  pub state : State
  pub shutdown : ShutdownProgress

abbrev pub values {ℓ κ} : {K : Type ℓ} {V : Type κ} → List (K × V) → List V
values [] = []
values ((k, v) ∷ m) = v ∷ values m

unfoldable pub job : Operation → ShutdownJob
job operation = record { operation = operation; task = false; completed = false }

unfoldable pub shutdown_phases : ServiceApp → List (List ShutdownJob)
shutdown_phases app =
    (map (λ r. job (stop_source r)) (values app.sources)
      ++ map (λ c. job (stop_component c)) app.components)
    ∷ (map (λ p. job (stop_task_pool p)) app.task_pools
        ++ (map (λ p. job (stop_priority_task_pool p)) app.priority_task_pools
            ++ (job stop_delay_pool ∷ map (λ s. job (stop_storage s)) app.storages)))
    ∷ (job drain_parallel ∷ [])
    ∷ map (λ r. job (stop_sink r)) (values app.sinks)
    ∷ (job stop_runtime_metrics ∷ [])
    ∷ (job shutdown_metrics ∷ [])
    ∷ (job shutdown_tracing ∷ [])
    ∷ (job shutdown_logs ∷ [])
    ∷ []

-- What a wait for a task sees: its result, or that the caller's context ends first.
pub data Answer : Type 0 where
  ok : Answer
  error : RuntimeError → Answer
  late : Answer

-- The same for a server, whose error is its text.
pub data ServerAnswer : Type 0 where
  drained : ServerAnswer
  broken : String → ServerAnswer
  server_late : ServerAnswer

-- All that the environment answers to one call of `stop`.
pub record Answers : Type 0 where
  pub lock_cancelled : Bool
  pub grpc : ServerAnswer
  pub http : ServerAnswer
  pub cancelled : ℕ → Bool  -- at the start of a phase
  pub jobs : ℕ → ℕ → Answer  -- of a phase, by position

unfoldable pub ensure_created : ServiceApp → Result
ensure_created app = elim app.state [
  | created ↦ none
  | starting ↦ some resource_already_started
  | running ↦ some resource_already_started
  | stopping ↦ some resource_already_started
  | stopped ↦ some resource_stopped
]

abbrev registered : Bool → Result
registered true = some duplicate_resource
registered false = none

unfoldable pub register_data_source : ℕ → ℕ → ServiceApp → Result × ServiceApp
register_data_source id source app = elim (ensure_created app) [
  | some e ↦ (some e, app)
  | none ↦ (
    registered (is_some (lookup id app.sources)),
    record app { sources = insert id source app.sources },
  )
]

unfoldable pub register_data_sink : ℕ → ℕ → ServiceApp → Result × ServiceApp
register_data_sink id sink app = elim (ensure_created app) [
  | some e ↦ (some e, app)
  | none ↦
      (registered (is_some (lookup id app.sinks)), record app { sinks = insert id sink app.sinks })
]

unfoldable pub add_component : ℕ → ServiceApp → Result × ServiceApp
add_component component app = elim (ensure_created app) [
  | some e ↦ (some e, app)
  | none ↦ (none, record app { components = app.components ++ component ∷ [] })
]

abbrev pub spawn_job : ShutdownJob → ShutdownJob
spawn_job j = if not j.completed && not j.task then record j { task = true } else j

-- One round of the second loop, with those after it: a completed job is passed over.
abbrev pub awaited :
    Bool
    → Answer
    → ShutdownJob
    → List ShutdownJob
    → List ShutdownJob × Result
    → List ShutdownJob × Result
awaited true a j js rest = (j ∷ rest.0, rest.1)
awaited false ok j js rest = (record j { task = false; completed = true } ∷ rest.0, rest.1)
awaited false (error e) j js rest = (record j { task = false } ∷ js, some e)
awaited false late j js rest = (j ∷ js, some context_cancelled)

-- The second loop over the jobs of a phase.
unfoldable pub wait_jobs : (ℕ → Answer) → ℕ → List ShutdownJob → List ShutdownJob × Result
wait_jobs answers i [] = ([], none)
wait_jobs answers i (j ∷ js) = awaited j.completed (answers i) j js (wait_jobs answers (suc i) js)

abbrev pub Phased : Type 0
Phased = ℕ × List (List ShutdownJob) × Result

-- One round of the loop over the phases, with those after it.
abbrev pub after_wait : List ShutdownJob × Result → ℕ → List (List ShutdownJob) → Phased → Phased
after_wait (js, none) p phases rest = (rest.0, js ∷ rest.1, rest.2)
after_wait (js, some e) p phases rest = (p, js ∷ phases, some e)

abbrev pub run_phase :
    Bool → (ℕ → Answer) → ℕ → List ShutdownJob → List (List ShutdownJob) → Phased → Phased
run_phase true answers p js phases rest = (p, js ∷ phases, some context_cancelled)
run_phase false answers p js phases rest =
    after_wait (wait_jobs answers 0 (map spawn_job js)) p phases rest

-- The loop over the phases, from a number of phases on, at a position: the cursor and the phases
-- after it.
unfoldable pub run_phases : Answers → ℕ → ℕ → List (List ShutdownJob) → Phased
run_phases o n p [] = (p, [], none)
run_phases o (suc n) p (js ∷ phases) =
    let rest = run_phases o n (suc p) phases in (rest.0, js ∷ rest.1, rest.2)
run_phases o zero p (js ∷ phases) =
    run_phase (o.cancelled p) (o.jobs p) p js phases (run_phases o zero (suc p) phases)

-- Whether a server is left, and its error.
unfoldable pub drain_server : Bool → ServerAnswer → Result × Bool
drain_server false a = (none, false)
drain_server true drained = (none, false)
drain_server true (broken e) = (some (transport e), false)
drain_server true server_late = (some context_cancelled, true)

-- The phases that are there, or those that a first call makes.
abbrev phases_or :
    List (List ShutdownJob) → Option (List (List ShutdownJob)) → List (List ShutdownJob)
phases_or made none = made
phases_or made (some phases) = phases

-- What a call does that waits for the lock of the shutdown.
abbrev with_lock : Bool → ServiceApp → Result × ServiceApp → Result × ServiceApp
with_lock true app r = (some context_cancelled, app)
with_lock false app r = r

module _ (show : RuntimeError → String) where
  -- A failure that later calls return, unless the caller's context ended.
  abbrev failure_of : RuntimeError → Option String → Option String
  failure_of context_cancelled failure = failure
  failure_of e failure = some (show e)

  abbrev failed_with : RuntimeError → ServiceApp → Result × ServiceApp
  failed_with e app = (
    some e,
    record app { shutdown = record app.shutdown { failure = failure_of e app.shutdown.failure } },
  )

  abbrev phased : Phased → ServiceApp → Result × ServiceApp
  phased (p, phases, none) app = (
    none,
    record app {
      shutdown = record app.shutdown { phase = p; phases = some phases };
      endpoint_consumers = [];
      state = stopped;
    },
  )
  phased (p, phases, some e) app =
      failed_with e
        (record app { shutdown = record app.shutdown { phase = p; phases = some phases } })

  unfoldable pub drain_phases : Answers → ServiceApp → Result × ServiceApp
  drain_phases o app =
      let phases = phases_or (shutdown_phases app) app.shutdown.phases in
      phased (run_phases o app.shutdown.phase 0 phases) app

  abbrev drained_http : Answers → Result × Bool → ServiceApp → Result × ServiceApp
  drained_http o (none, left) app = drain_phases o (record app { http_task = left })
  drained_http o (some e, left) app = failed_with e (record app { http_task = left })

  abbrev drained_grpc : Answers → Result × Bool → ServiceApp → Result × ServiceApp
  drained_grpc o (none, left) app =
      drained_http o (drain_server app.http_task o.http) (record app { grpc_task = left })
  drained_grpc o (some e, left) app = failed_with e (record app { grpc_task = left })

  abbrev unless_failed : Option String → Answers → ServiceApp → Result × ServiceApp
  unless_failed (some e) o app = (some (transport e), app)
  unless_failed none o app = drained_grpc o (drain_server app.grpc_task o.grpc) app

  unfoldable pub stop_resources : Answers → ServiceApp → Result × ServiceApp
  stop_resources o app = unless_failed app.shutdown.failure o app

  abbrev stop_at : State → Answers → ServiceApp → Result × ServiceApp
  stop_at stopped o app = (none, app)
  stop_at created o app = (none, record app { state = stopped })
  stop_at running o app = stop_resources o (record app { state = stopping })
  stop_at stopping o app = stop_resources o app
  stop_at starting o app = (some resource_already_started, app)

  -- `ServiceApp::stop`, to its return.
  unfoldable pub stop : Answers → ServiceApp → Result × ServiceApp
  stop o app = with_lock o.lock_cancelled app (stop_at app.state o app)
