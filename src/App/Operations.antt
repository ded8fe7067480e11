-- ===== src/App/Operations.antt =====
-- The operations of the jobs of a shutdown in src/runtime/serviceapp.rs: which are there, and that no run
-- changes them.
use Prim.Native.String.{String}
use rustservicelib.Base.{
  subst, ℕ, zero, suc, List, [], ◌∷◌, ◌++◌, map, Option, none, some, some_eq, Bool, true, false,
  ◌≡◌, refl, sym, ◌∙◌, ap, inl, inr, ◌⊎◌, not, ◌&&◌, if◌then◌else◌,
}
use rustservicelib.App.{
  RuntimeError, Result, Operation, ShutdownJob, Answer, Answers, Phased, ServiceApp, ok, error,
  late, running, job, spawn_job, awaited, wait_jobs, after_wait, run_phase, run_phases,
  shutdown_phases, phases_or, values, drain_server, failed_with, phased, drain_phases, drained_http,
  drained_grpc, unless_failed, stop_resources, stop_at, stop, stopping, with_lock, stop_source,
  stop_component, stop_task_pool, stop_priority_task_pool, stop_delay_pool, stop_storage,
  drain_parallel, stop_sink, stop_runtime_metrics,
}

abbrev pub In : {A : Type 0} → A → List A → Type 0
In a [] = ⊥
In a (x ∷ xs) = (x ≡ a) ⊎ In a xs

module _ {A : Type 0} where
  pub In-left : (a : A) (xs ys : List A) → In a xs → In a (xs ++ ys)
  In-left a [] ys h = absurd h
  In-left a (x ∷ xs) ys (inl same) = inl same
  In-left a (x ∷ xs) ys (inr h) = inr (In-left a xs ys h)

  pub In-right : (a : A) (xs ys : List A) → In a ys → In a (xs ++ ys)
  In-right a [] ys h = h
  In-right a (x ∷ xs) ys h = inr (In-right a xs ys h)

  pub In-map : {B : Type 0} (f : B → A) (b : B) (xs : List B) → In b xs → In (f b) (map f xs)
  In-map f b [] h = absurd h
  In-map f b (x ∷ xs) (inl same) = inl (ap f same)
  In-map f b (x ∷ xs) (inr h) = inr (In-map f b xs h)

abbrev operations_of : List ShutdownJob → List Operation
operations_of js = map (λ (j : ShutdownJob). j.operation) js

-- The operations of all phases, in their order.
abbrev pub operations : List (List ShutdownJob) → List Operation
operations [] = []
operations (js ∷ phases) = operations_of js ++ operations phases

operations_of-append :
    (xs ys : List ShutdownJob) → operations_of (xs ++ ys) ≡ operations_of xs ++ operations_of ys
operations_of-append [] ys = refl
operations_of-append (x ∷ xs) ys = ap (◌∷◌ x.operation) (operations_of-append xs ys)

operations_of-jobs :
    (f : ℕ → Operation) (xs : List ℕ) → operations_of (map (λ x. job (f x)) xs) ≡ map f xs
unfolding job
operations_of-jobs f [] = refl
operations_of-jobs f (x ∷ xs) = ap (◌∷◌ (f x)) (operations_of-jobs f xs)

awaited-operations :
    (b : Bool) (a : Answer) (j : ShutdownJob) (js : List ShutdownJob)
    → (rest : List ShutdownJob × Result) → operations_of rest.0 ≡ operations_of js
    → operations_of (awaited b a j js rest).0 ≡ operations_of (j ∷ js)
awaited-operations true a j js rest h = ap (◌∷◌ j.operation) h
awaited-operations false ok j js rest h = ap (◌∷◌ j.operation) h
awaited-operations false (error e) j js rest h = refl
awaited-operations false late j js rest h = refl

wait_jobs-operations :
    (answers : ℕ → Answer) (i : ℕ) (js : List ShutdownJob)
    → operations_of (wait_jobs answers i js).0 ≡ operations_of js
unfolding wait_jobs
wait_jobs-operations answers i [] = refl
wait_jobs-operations answers i (j ∷ js) =
    awaited-operations j.completed (answers i) j js (wait_jobs answers (suc i) js)
      (wait_jobs-operations answers (suc i) js)

spawned-operations : (js : List ShutdownJob) → operations_of (map spawn_job js) ≡ operations_of js
spawned-operations [] = refl
spawned-operations (j ∷ js) = spawned (not j.completed && not j.task) (spawned-operations js)
  where
    spawned :
        (b : Bool) {xs : List Operation}
        → xs ≡ operations_of js
        → (if b then record j { task = true } else j).operation ∷ xs ≡ operations_of (j ∷ js)
    spawned true h = ap (◌∷◌ j.operation) h
    spawned false h = ap (◌∷◌ j.operation) h

append_both : {a b c d : List Operation} → a ≡ b → c ≡ d → a ++ c ≡ b ++ d
append_both {b = b} {c = c} e f = ap (λ x. x ++ c) e ∙ ap (λ y. b ++ y) f

run_phase-operations :
    (b : Bool) (answers : ℕ → Answer) (p : ℕ) (js : List ShutdownJob)
    → (phases : List (List ShutdownJob)) (rest : Phased) → operations rest.1 ≡ operations phases
    → operations (run_phase b answers p js phases rest).1 ≡ operations (js ∷ phases)
run_phase-operations true answers p js phases rest h = refl
run_phase-operations false answers p js phases rest h =
    waited (wait_jobs answers 0 (map spawn_job js))
      (wait_jobs-operations answers 0 (map spawn_job js) ∙ spawned-operations js)
  where
    waited :
        (r : List ShutdownJob × Result)
        → operations_of r.0 ≡ operations_of js
        → operations (after_wait r p phases rest).1 ≡ operations (js ∷ phases)
    waited (ks, none) k = append_both k h
    waited (ks, some e) k = ap (λ x. x ++ operations phases) k

-- A run of the phases keeps their operations.
run_phases-operations :
    (o : Answers) (n p : ℕ) (phases : List (List ShutdownJob))
    → operations (run_phases o n p phases).1 ≡ operations phases
unfolding run_phases
run_phases-operations o n p [] = refl
run_phases-operations o (suc n) p (js ∷ phases) =
    ap (λ x. operations_of js ++ x) (run_phases-operations o n (suc p) phases)
run_phases-operations o zero p (js ∷ phases) =
    run_phase-operations (o.cancelled p) (o.jobs p) p js phases (run_phases o zero (suc p) phases)
      (run_phases-operations o zero (suc p) phases)

-- Where there are phases, their operations are these.
abbrev Keeps : List Operation → ServiceApp → Type 0
Keeps ops app =
    (phases : List (List ShutdownJob)) → app.shutdown.phases ≡ some phases → operations phases ≡ ops

Keeps-none : (ops : List Operation) (app : ServiceApp) → app.shutdown.phases ≡ none → Keeps ops app
Keeps-none ops app fresh phases h = absurd (clash (sym fresh ∙ h))
  where
    clash : none ≡ some phases → ⊥
    clash e = cc

module _ (show : RuntimeError → String) where
  phased-Keeps :
      (ops : List Operation) (r : Phased) (app : ServiceApp)
      → operations r.1 ≡ ops
      → Keeps ops (phased show r app).1
  phased-Keeps ops (p, phases, none) app h later at = ap operations (sym (some_eq at)) ∙ h
  phased-Keeps ops (p, phases, some e) app h later at = ap operations (sym (some_eq at)) ∙ h

  drain_phases-Keeps :
      (o : Answers) (app : ServiceApp)
      → app.shutdown.phases ≡ none
      → Keeps (operations (shutdown_phases app)) (drain_phases show o app).1
  unfolding drain_phases
  drain_phases-Keeps o app fresh = phased-Keeps (operations (shutdown_phases app)) _ app (
      run_phases-operations o app.shutdown.phase 0
        (phases_or (shutdown_phases app) app.shutdown.phases)
      ∙ ap (λ x. operations (phases_or (shutdown_phases app) x)) fresh)

  drained_http-Keeps :
      (o : Answers) (d : Result × Bool) (app : ServiceApp)
      → app.shutdown.phases ≡ none
      → Keeps (operations (shutdown_phases app)) (drained_http show o d app).1
  unfolding shutdown_phases
  drained_http-Keeps o (none, left) app fresh =
      unfold shutdown_phases in drain_phases-Keeps o (record app { http_task = left }) fresh
  drained_http-Keeps o (some e, left) app fresh =
      Keeps-none _ (failed_with show e (record app { http_task = left })).1 fresh

  drained_grpc-Keeps :
      (o : Answers) (d : Result × Bool) (app : ServiceApp)
      → app.shutdown.phases ≡ none
      → Keeps (operations (shutdown_phases app)) (drained_grpc show o d app).1
  unfolding shutdown_phases
  drained_grpc-Keeps o (none, left) app fresh =
      unfold shutdown_phases in
      drained_http-Keeps o (drain_server app.http_task o.http) (record app { grpc_task = left })
        fresh
  drained_grpc-Keeps o (some e, left) app fresh =
      Keeps-none _ (failed_with show e (record app { grpc_task = left })).1 fresh

  unless_failed-Keeps :
      (failure : Option String) (o : Answers) (app : ServiceApp)
      → app.shutdown.phases ≡ none
      → Keeps (operations (shutdown_phases app)) (unless_failed show failure o app).1
  unless_failed-Keeps none o app fresh =
      drained_grpc-Keeps o (drain_server app.grpc_task o.grpc) app fresh
  unless_failed-Keeps (some e) o app fresh = Keeps-none _ app fresh

  with_lock-Keeps :
      (b : Bool) (ops : List Operation) (app : ServiceApp) (r : Result × ServiceApp)
      → app.shutdown.phases ≡ none
      → Keeps ops r.1
      → Keeps ops (with_lock b app r).1
  with_lock-Keeps true ops app r fresh h = Keeps-none ops app fresh
  with_lock-Keeps false ops app r fresh h = h

  -- The first stop of a running service makes the jobs that the service asks for, and none is dropped.
  pub stop-Keeps :
      (o : Answers) (app : ServiceApp) (phases : List (List ShutdownJob))
      → app.state ≡ running
      → app.shutdown.phases ≡ none
      → (stop show o app).1.shutdown.phases ≡ some phases
      → operations phases ≡ operations (shutdown_phases app)
  unfolding stop stop_resources shutdown_phases
  stop-Keeps o app phases st fresh at = stopped_from app.state st phases at
    where
      stopped_from :
          (s : _)
          → s ≡ running
          → Keeps
              (operations (shutdown_phases app))
              (with_lock o.lock_cancelled app (stop_at show s o app)).1
      stopped_from s e =
          unfold shutdown_phases stop_resources in
          rw e (
            with_lock-Keeps o.lock_cancelled (operations (shutdown_phases app)) app
              (stop_at show running o app) fresh
              (unless_failed-Keeps app.shutdown.failure o (record app { state = stopping }) fresh))

-- The operations of the jobs that a service makes: one for each of its resources.
pub record Covers (app : ServiceApp) (ops : List Operation) : Type 0 where
  pub sources : (n : ℕ) → In n (values app.sources) → In (stop_source n) ops
  pub components : (n : ℕ) → In n app.components → In (stop_component n) ops
  pub task_pools : (n : ℕ) → In n app.task_pools → In (stop_task_pool n) ops
  pub priority_task_pools :
      (n : ℕ) → In n app.priority_task_pools → In (stop_priority_task_pool n) ops
  pub storages : (n : ℕ) → In n app.storages → In (stop_storage n) ops
  pub sinks : (n : ℕ) → In n (values app.sinks) → In (stop_sink n) ops
  pub metrics : In stop_runtime_metrics ops

In-jobs :
    (f : ℕ → Operation) (n : ℕ) (xs : List ℕ)
    → In n xs
    → In (f n) (operations_of (map (λ x. job (f x)) xs))
In-jobs f n xs h = subst (In (f n)) (sym (operations_of-jobs f xs)) (In-map f n xs h)

In-before :
    (op : Operation) (xs ys : List ShutdownJob)
    → In op (operations_of xs)
    → In op (operations_of (xs ++ ys))
In-before op xs ys h = subst (In op) (sym (operations_of-append xs ys)) (In-left op _ _ h)

In-after :
    (op : Operation) (xs ys : List ShutdownJob)
    → In op (operations_of ys)
    → In op (operations_of (xs ++ ys))
In-after op xs ys h =
    subst (In op) (sym (operations_of-append xs ys)) (In-right op (operations_of xs) _ h)

pub shutdown_phases-In : (app : ServiceApp) → Covers app (operations (shutdown_phases app))
unfolding shutdown_phases job
shutdown_phases-In app =
    let sources = map (λ r. job (stop_source r)) (values app.sources) in
    let components = map (λ c. job (stop_component c)) app.components in
    let pools = map (λ p. job (stop_task_pool p)) app.task_pools in
    let priority_pools = map (λ p. job (stop_priority_task_pool p)) app.priority_task_pools in
    let storages = job stop_delay_pool ∷ map (λ s. job (stop_storage s)) app.storages in
    let inputs = operations_of (sources ++ components) in
    let runtime = operations_of (pools ++ (priority_pools ++ storages)) in
    let sinks = operations_of (map (λ r. job (stop_sink r)) (values app.sinks)) in
    let drain = operations_of (job drain_parallel ∷ []) in
    record {
      sources = λ n h.
          In-left _ inputs _
            (In-before _ sources components (In-jobs stop_source n (values app.sources) h));
      components = λ n h.
          In-left _ inputs _
            (In-after _ sources components (In-jobs stop_component n app.components h));
      task_pools = λ n h.
          In-right _ inputs _
            (In-left _ runtime _ (In-before _ pools _ (In-jobs stop_task_pool n app.task_pools h)));
      priority_task_pools = λ n h. In-right _ inputs _ (
          In-left _ runtime _ (
            In-after _ pools _ (
              In-before _ priority_pools _
                (In-jobs stop_priority_task_pool n app.priority_task_pools h))));
      storages = λ n h. In-right _ inputs _ (
          In-left _ runtime _ (
            In-after _ pools _
              (In-after _ priority_pools _ (inr (In-jobs stop_storage n app.storages h)))));
      sinks = λ n h. In-right _ inputs _ (
          In-right _ runtime _
            (In-right _ drain _ (In-left _ sinks _ (In-jobs stop_sink n (values app.sinks) h))));
      metrics =
          In-right _ inputs _
            (In-right _ runtime _ (In-right _ drain _ (In-right _ sinks _ (inl refl))));
    }
