-- ===== src/App/Cleanup.antt =====
-- What a failed start of src/runtime/serviceapp.rs leaves, after the cleanup that it runs.
use Prim.Native.String.{String}
use rustservicelib.Base.{
  subst, sym, ℕ, List, [], ◌∷◌, ◌++◌, map, none, some, Bool, true, false, All, ◌≡◌, refl, inl, inr,
  if◌then◌else◌,
}
use rustservicelib.App.{
  RuntimeError, Result, State, ServiceApp, Answers, created, starting, running, stopping, stopped,
  values, Operation, ShutdownJob, shutdown_phases, stop_source, stop_component, stop_task_pool,
  stop_priority_task_pool, stop_storage, stop_sink, stop_runtime_metrics,
}
use rustservicelib.App.Operations.{In, operations, stop-Keeps, shutdown_phases-In}
use rustservicelib.App.Stop.{Inv, stop_complete}
use rustservicelib.App.Retry.{IsGood, stops}
use rustservicelib.App.Ends.{stop_ends}
use rustservicelib.App.Start.{
  StartAction, build_streams, start_runtime_metrics, start_storage, start_task_pool,
  start_priority_task_pool, start_component, start_sink, start_source, start_grpc_server,
  start_http_server, graph_actions, admission_actions, start_actions, started, start_all, launched,
  settled, start_at, start,
}

-- The job that stops what an action started is among the operations. The streams and the servers have
-- none.
abbrev pub IsStopped : List Operation → StartAction → Type 0
IsStopped ops build_streams = Unit
IsStopped ops start_runtime_metrics = In stop_runtime_metrics ops
IsStopped ops (start_storage n) = In (stop_storage n) ops
IsStopped ops (start_task_pool n) = In (stop_task_pool n) ops
IsStopped ops (start_priority_task_pool n) = In (stop_priority_task_pool n) ops
IsStopped ops (start_component n) = In (stop_component n) ops
IsStopped ops (start_sink n) = In (stop_sink n) ops
IsStopped ops (start_source n) = In (stop_source n) ops
IsStopped ops start_grpc_server = Unit
IsStopped ops start_http_server = Unit

append-IsStopped :
    (ops : List Operation) (xs ys : List StartAction)
    → All (IsStopped ops) xs
    → All (IsStopped ops) ys
    → All (IsStopped ops) (xs ++ ys)
append-IsStopped ops [] ys h k = k
append-IsStopped ops (x ∷ xs) ys (h, hs) k = (h, append-IsStopped ops xs ys hs k)

map-IsStopped :
    (ops : List Operation) (f : ℕ → StartAction) (xs : List ℕ)
    → ((n : ℕ) → In n xs → IsStopped ops (f n))
    → All (IsStopped ops) (map f xs)
map-IsStopped ops f [] h = tt
map-IsStopped ops f (x ∷ xs) h = (h x (inl refl), map-IsStopped ops f xs (λ n i. h n (inr i)))

start_actions-IsStopped :
    (admission : Bool) (app : ServiceApp)
    → All (IsStopped (operations (shutdown_phases app))) (start_actions admission app)
unfolding start_actions graph_actions admission_actions
start_actions-IsStopped admission app =
    let ops = operations (shutdown_phases app) in
    let jobs = shutdown_phases-In app in
    append-IsStopped ops (graph_actions app) (if admission then admission_actions app else [])
      (
        tt,
        (
          jobs.metrics,
          append-IsStopped ops _ _ (map-IsStopped ops start_storage app.storages jobs.storages) (
              append-IsStopped ops _ _
                (map-IsStopped ops start_task_pool app.task_pools jobs.task_pools)
                (append-IsStopped ops _ _
                  (map-IsStopped ops start_priority_task_pool app.priority_task_pools
                    jobs.priority_task_pools)
                  (append-IsStopped ops _ _
                    (map-IsStopped ops start_component app.components jobs.components)
                    (map-IsStopped ops start_sink (values app.sinks) jobs.sinks)))),
        ),
      )
      (admitted admission)
  where
    admitted :
        (b : Bool)
        → All
            (IsStopped (operations (shutdown_phases app)))
            (if b then admission_actions app else [])
    admitted false = tt
    admitted true =
        append-IsStopped (operations (shutdown_phases app)) _
          (start_grpc_server ∷ start_http_server ∷ [])
          (map-IsStopped (operations (shutdown_phases app)) start_source (values app.sources)
            (shutdown_phases-In app).sources)
          (tt, (tt, tt))

start_all-All :
    (P : StartAction → Type 0) (f : StartAction → Result) (xs : List StartAction)
    → All P xs
    → All P (start_all f xs).0
unfolding start_all
start_all-All P f [] h = tt
start_all-All P f (x ∷ xs) (h, hs) = began (f x) (start_all f xs) (start_all-All P f xs hs)
  where
    began :
        (r : Result) (rest : List StartAction × Result) → All P rest.0 → All P (started r x rest).0
    began none rest k = (h, k)
    began (some e) rest k = tt

-- The service is stopped, every job of its shutdown is completed, and there is one for all that was
-- started.
abbrev pub IsUndone : List StartAction → ServiceApp → Type 0
IsUndone log app =
    (app.state ≡ stopped)
    × ((phases : List (List ShutdownJob)) × (app.shutdown.phases ≡ some phases)
        × All (All (λ (j : ShutdownJob). j.completed ≡ true)) phases
        × All (IsStopped (operations phases)) log)

settled-failed :
    (show : RuntimeError → String) (o : Answers) (r : List StartAction × Result) (app : ServiceApp)
    → (e : RuntimeError) → Inv app
    → app.shutdown.failure ≡ none
    → app.shutdown.phases ≡ none
    → IsGood o
    → All (IsStopped (operations (shutdown_phases app))) r.0
    → r.1 ≡ some e
    → ((settled show o r app).0 ≡ some e) × IsUndone r.0 (settled show o r app).2
unfolding stops launched
settled-failed show o (log, none) app e v f fresh g all h = absurd cc
settled-failed show o (log, some d) app e v f fresh g all h =
    let begun = launched log app in
    let ended = stop_ends show [] o begun tt g (inl refl) f in
    let (st, (phases, at, done)) = (stop_complete show o begun v (inl refl)).1 ended in
    let same : operations phases ≡ operations (shutdown_phases app) =
      unfold shutdown_phases launched in stop-Keeps show o begun phases refl fresh at in
    (h, (st, (phases, at, done, subst (λ ops. All (IsStopped ops) log) (sym same) all)))

start_at-failed :
    (show : RuntimeError → String) (st : State) (f : StartAction → Result) (o : Answers)
    → (admission : Bool) (app : ServiceApp) (e : RuntimeError) → st ≡ created
    → Inv app
    → app.shutdown.failure ≡ none
    → app.shutdown.phases ≡ none
    → IsGood o
    → (start_all f (start_actions admission app)).1 ≡ some e
    → ((start_at show st f o admission app).0 ≡ some e)
      × IsUndone
          (start_all f (start_actions admission app)).0
          (start_at show st f o admission app).2
unfolding shutdown_phases
start_at-failed show created f o admission app e st v failure fresh g h =
    settled-failed show o (start_all f (start_actions admission app))
      (record app { state = starting }) e v failure fresh g
      (start_all-All _ f (start_actions admission app)
        (unfold shutdown_phases in start_actions-IsStopped admission app))
      h
start_at-failed show starting f o admission app e st v failure fresh g h = absurd cc
start_at-failed show running f o admission app e st v failure fresh g h = absurd cc
start_at-failed show stopping f o admission app e st v failure fresh g h = absurd cc
start_at-failed show stopped f o admission app e st v failure fresh g h = absurd cc

-- A start of a new service in which an action fails, and whose cleanup is not cut short and ends well:
-- the start returns the error of the action and the service is stopped. Every shutdown job is
-- completed, and among them is, for every action that had succeeded, the job that stops what it
-- started: the metrics, the storage, the pool, the component, the sink or the source.
pub failed_start_cleans :
    (show : RuntimeError → String) (f : StartAction → Result) (o : Answers) (admission : Bool)
    → (app : ServiceApp) (e : RuntimeError) → app.state ≡ created
    → Inv app
    → app.shutdown.failure ≡ none
    → app.shutdown.phases ≡ none
    → IsGood o
    → (start_all f (start_actions admission app)).1 ≡ some e
    → ((start show f o admission app).0 ≡ some e)
      × IsUndone (start_all f (start_actions admission app)).0 (start show f o admission app).2
unfolding start
failed_start_cleans show f o admission app e st v failure fresh g h =
    start_at-failed show app.state f o admission app e st v failure fresh g h
