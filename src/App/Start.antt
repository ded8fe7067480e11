-- ===== src/App/Start.antt =====
-- `ServiceApp::start` and `start_graph` of src/runtime/serviceapp.rs: what is started, in which order, and
-- what a failure leaves.
use Prim.Native.String.{String}
use rustservicelib.Base.{
  ℕ, List, [], ◌∷◌, ◌++◌, map, none, some, Bool, true, false, All, ◌≡◌, refl, ◌∙◌, ap, inl, inr,
  ◌⊎◌, if◌then◌else◌, ◌&&◌, ◌||◌,
}
use rustservicelib.App.{
  RuntimeError, Result, State, ServiceApp, Answers, resource_already_started, created, starting,
  running, stopping, stopped, values, stop,
}
use rustservicelib.App.Operations.{In, In-left, In-right, In-map}

pub data StartAction : Type 0 where
  build_streams : StartAction
  start_runtime_metrics : StartAction
  start_storage : ℕ → StartAction
  start_task_pool : ℕ → StartAction
  start_priority_task_pool : ℕ → StartAction
  start_component : ℕ → StartAction
  start_sink : ℕ → StartAction
  start_source : ℕ → StartAction
  start_grpc_server : StartAction
  start_http_server : StartAction

unfoldable pub graph_actions : ServiceApp → List StartAction
graph_actions app =
    build_streams
    ∷ start_runtime_metrics
    ∷ (map start_storage app.storages
        ++ (map start_task_pool app.task_pools
            ++ (map start_priority_task_pool app.priority_task_pools
                ++ (map start_component app.components ++ map start_sink (values app.sinks)))))

unfoldable pub admission_actions : ServiceApp → List StartAction
admission_actions app =
    map start_source (values app.sources) ++ start_grpc_server ∷ start_http_server ∷ []

unfoldable pub start_actions : Bool → ServiceApp → List StartAction
start_actions admission app = graph_actions app ++ (if admission then admission_actions app else [])

abbrev pub started : Result → StartAction → List StartAction × Result → List StartAction × Result
started none a rest = (a ∷ rest.0, rest.1)
started (some e) a rest = ([], some e)

-- The actions that succeed, up to the first that does not, and its error.
unfoldable pub start_all : (StartAction → Result) → List StartAction → List StartAction × Result
start_all f [] = ([], none)
start_all f (a ∷ as') = started (f a) a (start_all f as')

abbrev is_grpc : StartAction → Bool
is_grpc start_grpc_server = true
is_grpc _ = false

abbrev is_http : StartAction → Bool
is_http start_http_server = true
is_http _ = false

abbrev any : (StartAction → Bool) → List StartAction → Bool
any p [] = false
any p (a ∷ as') = p a || any p as'

-- The servers that run after the actions, with the state that the start sets at its end.
unfoldable pub launched : List StartAction → ServiceApp → ServiceApp
launched log app = record app {
  grpc_task = app.grpc_task || (any is_grpc log && app.grpc_routes);
  http_task = app.http_task || any is_http log;
  state = running;
}

module _ (show : RuntimeError → String) where
  abbrev pub settled :
      Answers → List StartAction × Result → ServiceApp → Result × List StartAction × ServiceApp
  settled o (log, none) app = (none, log, launched log app)
  settled o (log, some e) app = (some e, log, (stop show o (launched log app)).1)

  abbrev pub start_at :
      State
      → (StartAction → Result)
      → Answers
      → Bool
      → ServiceApp
      → Result × List StartAction × ServiceApp
  start_at created f o admission app =
      settled o (start_all f (start_actions admission app)) (record app { state = starting })
  start_at starting f o admission app = (some resource_already_started, [], app)
  start_at running f o admission app = (some resource_already_started, [], app)
  start_at stopping f o admission app = (some resource_already_started, [], app)
  start_at stopped f o admission app = (some resource_already_started, [], app)

  -- `start_with_admission`: what each action answers, and what the cleanup is answered. The result, the
  -- actions that succeeded, and the service after it.
  unfoldable pub start :
      (StartAction → Result) → Answers → Bool → ServiceApp → Result × List StartAction × ServiceApp
  start f o admission app = start_at app.state f o admission app

-- An action that lets work in.
abbrev pub is_admission : StartAction → Bool
is_admission (start_source s) = true
is_admission start_grpc_server = true
is_admission start_http_server = true
is_admission _ = false

abbrev IsDownstream : StartAction → Type 0
IsDownstream a = is_admission a ≡ false

append-IsDownstream :
    (xs ys : List StartAction)
    → All IsDownstream xs
    → All IsDownstream ys
    → All IsDownstream (xs ++ ys)
append-IsDownstream [] ys h k = k
append-IsDownstream (x ∷ xs) ys (h, hs) k = (h, append-IsDownstream xs ys hs k)

map-IsDownstream :
    (f : ℕ → StartAction) (xs : List ℕ)
    → ((n : ℕ) → IsDownstream (f n))
    → All IsDownstream (map f xs)
map-IsDownstream f [] h = tt
map-IsDownstream f (x ∷ xs) h = (h x, map-IsDownstream f xs h)

graph_actions-IsDownstream : (app : ServiceApp) → All IsDownstream (graph_actions app)
unfolding graph_actions
graph_actions-IsDownstream app = (
  refl,
  (
    refl,
    append-IsDownstream _ _ (map-IsDownstream start_storage app.storages (λ n. refl)) (
        append-IsDownstream _ _ (map-IsDownstream start_task_pool app.task_pools (λ n. refl)) (
          append-IsDownstream _ _
            (map-IsDownstream start_priority_task_pool app.priority_task_pools (λ n. refl))
            (append-IsDownstream _ _ (map-IsDownstream start_component app.components (λ n. refl))
              (map-IsDownstream start_sink (values app.sinks) (λ n. refl))))),
  ),
)

-- What was started of two lists: only of the first, or all of the first and then of the second.
start_all-append :
    (f : StartAction → Result) (xs ys : List StartAction)
    → All IsDownstream xs
    → All IsDownstream (start_all f (xs ++ ys)).0
      ⊎ ((start_all f (xs ++ ys)).0 ≡ xs ++ (start_all f ys).0)
unfolding start_all
start_all-append f [] ys h = inr refl
start_all-append f (x ∷ xs) ys (h, hs) =
    began (f x) (start_all f (xs ++ ys)) (start_all-append f xs ys hs)
  where
    began :
        (r : Result) (rest : List StartAction × Result)
        → All IsDownstream rest.0 ⊎ (rest.0 ≡ xs ++ (start_all f ys).0)
        → All IsDownstream (started r x rest).0
          ⊎ ((started r x rest).0 ≡ x ∷ (xs ++ (start_all f ys).0))
    began none rest (inl only) = inl (h, only)
    began none rest (inr all) = inr (ap (◌∷◌ x) all)
    began (some e) rest o = inl tt

settled_log :
    (show : RuntimeError → String) (o : Answers) (r : List StartAction × Result) (app : ServiceApp)
    → (settled show o r app).1 ≡ r.0
settled_log show o (log, none) app = refl
settled_log show o (log, some e) app = refl

-- Everything downstream that a service has is among the actions: the streams and the metrics, and every
-- storage, pool, component and sink.
abbrev pub AllDownstream : ServiceApp → List StartAction → Type 0
AllDownstream app log =
    In build_streams log
    × In start_runtime_metrics log
    × ((n : ℕ) → In n app.storages → In (start_storage n) log)
    × ((n : ℕ) → In n app.task_pools → In (start_task_pool n) log)
    × ((n : ℕ) → In n app.priority_task_pools → In (start_priority_task_pool n) log)
    × ((n : ℕ) → In n app.components → In (start_component n) log)
    × ((n : ℕ) → In n (values app.sinks) → In (start_sink n) log)

graph_actions-AllDownstream : (app : ServiceApp) → AllDownstream app (graph_actions app)
unfolding graph_actions
graph_actions-AllDownstream app =
    let sinks = map start_sink (values app.sinks) in
    let components = map start_component app.components in
    let priority_pools = map start_priority_task_pool app.priority_task_pools in
    let pools = map start_task_pool app.task_pools in
    let storages = map start_storage app.storages in
    let resources = storages ++ (pools ++ (priority_pools ++ (components ++ sinks))) in
    let all : (a : StartAction)
        → In a resources
        → In a (build_streams ∷ start_runtime_metrics ∷ resources) =
      λ a h. inr (inr h) in
    let after_storages : (a : StartAction)
        → In a (pools ++ (priority_pools ++ (components ++ sinks)))
        → In a resources =
      λ a h. In-right a storages _ h in
    let after_pools : (a : StartAction)
        → In a (priority_pools ++ (components ++ sinks))
        → In a resources =
      λ a h. after_storages a (In-right a pools _ h) in
    let after_priority : (a : StartAction) → In a (components ++ sinks) → In a resources =
      λ a h. after_pools a (In-right a priority_pools _ h) in
    (
      inl refl,
      inr (inl refl),
      λ n h.
          all (start_storage n)
            (In-left (start_storage n) storages _ (In-map start_storage n app.storages h)),
      λ n h. all (start_task_pool n) (
          after_storages (start_task_pool n)
            (In-left (start_task_pool n) pools _ (In-map start_task_pool n app.task_pools h))),
      λ n h. all (start_priority_task_pool n) (
          after_pools (start_priority_task_pool n) (
            In-left (start_priority_task_pool n) priority_pools _
              (In-map start_priority_task_pool n app.priority_task_pools h))),
      λ n h. all (start_component n) (
          after_priority (start_component n)
            (In-left (start_component n) components _ (In-map start_component n app.components h))),
      λ n h. all (start_sink n) (
          after_priority (start_sink n)
            (In-right (start_sink n) components _ (In-map start_sink n (values app.sinks) h))),
    )

-- Nothing that lets work in, or first everything downstream and only then anything that does.
abbrev pub IsAdmittedLast : ServiceApp → List StartAction → Type 0
IsAdmittedLast app log =
    All (λ a. is_admission a ≡ false) log
    ⊎ ((first : List StartAction) × (rest : List StartAction) × (log ≡ first ++ rest)
        × All (λ a. is_admission a ≡ false) first
        × AllDownstream app first)

start_at-order :
    (show : RuntimeError → String) (st : State) (f : StartAction → Result) (o : Answers)
    → (admission : Bool) (app : ServiceApp)
    → IsAdmittedLast app (start_at show st f o admission app).1
unfolding start_actions
start_at-order show created f o admission app =
    let more = if admission then admission_actions app else [] in
    let log =
      settled_log show o (start_all f (start_actions admission app))
        (record app { state = starting }) in
    elim (start_all-append f (graph_actions app) more (graph_actions-IsDownstream app)) [
      | inl only ↦ inl (rw log only)
      | inr all ↦ inr (
        graph_actions app,
        (start_all f more).0,
        log ∙ all,
        graph_actions-IsDownstream app,
        graph_actions-AllDownstream app,
      )
    ]
start_at-order show starting f o admission app = inl tt
start_at-order show running f o admission app = inl tt
start_at-order show stopping f o admission app = inl tt
start_at-order show stopped f o admission app = inl tt

-- A start that starts anything that lets work in, a source or a server, has first started, before the
-- first of these, all that is downstream of it: the streams, the metrics, every storage, pool,
-- component and sink.
pub admission_last :
    (show : RuntimeError → String) (f : StartAction → Result) (o : Answers) (admission : Bool)
    → (app : ServiceApp) → IsAdmittedLast app (start show f o admission app).1
unfolding start
admission_last show f o admission app = start_at-order show app.state f o admission app
