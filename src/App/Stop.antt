-- ===== src/App/Stop.antt =====
-- `ServiceApp::stop` of src/runtime/serviceapp.rs, also where calls of it are cut short and repeated.
use Prim.Native.String.{String}
use rustservicelib.Base.{
  ℕ, List, [], ◌∷◌, ◌++◌, map, Option, none, some, Bool, true, false, All, ◌≡◌, refl, subst, inl,
  inr, ◌⊎◌, arith,
}
use rustservicelib.App.{
  RuntimeError, Result, State, ShutdownJob, Operation, ServiceApp, Answers, Phased, created,
  starting, running, stopping, stopped, job, shutdown_phases, run_phases, drain_server, phased,
  phases_or, unless_failed, drain_phases, drained_http, drained_grpc, stop_resources, stop_at, stop,
  with_lock, values,
}
use rustservicelib.App.Phases.{IsDone, IsUntouched, IsOrdered, Advanced, run_phases-Advanced}

-- The phases, once there are any, are in order at the cursor.
abbrev OrderedIn : ℕ → Option (List (List ShutdownJob)) → Type 0
OrderedIn phase none = phase ≡ 0
OrderedIn phase (some phases) = IsOrdered phase phases

abbrev pub Inv : ServiceApp → Type 0
Inv app = OrderedIn app.shutdown.phase app.shutdown.phases

append-IsUntouched :
    (xs ys : List ShutdownJob)
    → All IsUntouched xs
    → All IsUntouched ys
    → All IsUntouched (xs ++ ys)
append-IsUntouched [] ys h k = k
append-IsUntouched (x ∷ xs) ys (h, hs) k = (h, append-IsUntouched xs ys hs k)

map-IsUntouched : (f : ℕ → Operation) (xs : List ℕ) → All IsUntouched (map (λ x. job (f x)) xs)
unfolding job
map-IsUntouched f [] = tt
map-IsUntouched f (x ∷ xs) = ((refl, refl), map-IsUntouched f xs)

one_IsUntouched : (operation : Operation) → All IsUntouched (job operation ∷ [])
unfolding job
one_IsUntouched operation = ((refl, refl), tt)

shutdown_phases-IsOrdered : (app : ServiceApp) → IsOrdered 0 (shutdown_phases app)
unfolding shutdown_phases
shutdown_phases-IsOrdered app =
    let runtime = append-IsUntouched _ _ (map-IsUntouched Operation.stop_task_pool app.task_pools) (
      append-IsUntouched _ _
        (map-IsUntouched Operation.stop_priority_task_pool app.priority_task_pools)
        (append-IsUntouched (job Operation.stop_delay_pool ∷ []) _
          (one_IsUntouched Operation.stop_delay_pool)
          (map-IsUntouched Operation.stop_storage app.storages))) in
    (
      runtime,
      (
        one_IsUntouched _,
        (
          map-IsUntouched Operation.stop_sink (values app.sinks),
          (one_IsUntouched _, (one_IsUntouched _, (one_IsUntouched _, (one_IsUntouched _, tt)))),
        ),
      ),
    )

phases_or-IsOrdered :
    (made : List (List ShutdownJob)) (phase : ℕ) (o : Option (List (List ShutdownJob)))
    → IsOrdered 0 made
    → OrderedIn phase o
    → IsOrdered phase (phases_or made o)
phases_or-IsOrdered made phase none fresh v = rw v fresh
phases_or-IsOrdered made phase (some phases) fresh v = v

-- The loop over the phases, in the order that they have.
abbrev ran : Answers → ServiceApp → Phased
ran o app = run_phases o app.shutdown.phase 0 (phases_or (shutdown_phases app) app.shutdown.phases)

ran-Advanced :
    (o : Answers) (app : ServiceApp) → Inv app → Advanced app.shutdown.phase 0 (ran o app)
ran-Advanced o app v =
    run_phases-Advanced o app.shutdown.phase 0 (phases_or (shutdown_phases app) app.shutdown.phases)
      (phases_or-IsOrdered (shutdown_phases app) app.shutdown.phase app.shutdown.phases
        (shutdown_phases-IsOrdered app) v)

-- A call of `stop` leaves the phases in order, and where it returns without an error from a running or
-- stopping service, the service is stopped and every job is completed.
abbrev pub IsClean : ServiceApp → Type 0
IsClean app =
    (app.state ≡ stopped)
    × ((phases : List (List ShutdownJob)) × (app.shutdown.phases ≡ some phases)
        × All (All IsDone) phases)

abbrev Orderly : Result × ServiceApp → Type 0
Orderly r = Inv r.1 × (r.0 ≡ none → IsClean r.1)

abbrev pub IsStopping : State → Type 0
IsStopping st = (st ≡ running) ⊎ (st ≡ stopping)

stopped_rests : IsStopping stopped → ⊥
stopped_rests (inl e) = cc
stopped_rests (inr e) = cc

created_rests : IsStopping created → ⊥
created_rests (inl e) = cc
created_rests (inr e) = cc

starting_rests : IsStopping starting → ⊥
starting_rests (inl e) = cc
starting_rests (inr e) = cc

module _ (show : RuntimeError → String) where
  phased-Orderly :
      (n : ℕ) (r : Phased) (app : ServiceApp) → Advanced n 0 r → Orderly (phased show r app)
  phased-Orderly n (p, phases, none) app (k, at, le, order, all) =
      let same : k ≡ p = omega (arith, at) in
      (subst (λ m. IsOrdered m phases) same order, λ e. (refl, (phases, refl, all refl)))
  phased-Orderly n (p, phases, some e) app (k, at, le, order, all) =
      let same : k ≡ p = omega (arith, at) in
      (subst (λ m. IsOrdered m phases) same order, λ e. absurd cc)

  drain_phases-Orderly :
      (o : Answers) (app : ServiceApp) → Inv app → Orderly (drain_phases show o app)
  unfolding drain_phases
  drain_phases-Orderly o app v =
      phased-Orderly app.shutdown.phase (ran o app) app (ran-Advanced o app v)

  drained_http-Orderly :
      (o : Answers) (d : Result × Bool) (app : ServiceApp)
      → Inv app
      → Orderly (drained_http show o d app)
  drained_http-Orderly o (none, left) app v =
      drain_phases-Orderly o (record app { http_task = left }) v
  drained_http-Orderly o (some e, left) app v = (v, λ h. absurd cc)

  drained_grpc-Orderly :
      (o : Answers) (d : Result × Bool) (app : ServiceApp)
      → Inv app
      → Orderly (drained_grpc show o d app)
  drained_grpc-Orderly o (none, left) app v =
      drained_http-Orderly o (drain_server app.http_task o.http) (record app { grpc_task = left }) v
  drained_grpc-Orderly o (some e, left) app v = (v, λ h. absurd cc)

  unless_failed-Orderly :
      (failure : Option String) (o : Answers) (app : ServiceApp)
      → Inv app
      → Orderly (unless_failed show failure o app)
  unless_failed-Orderly none o app v =
      drained_grpc-Orderly o (drain_server app.grpc_task o.grpc) app v
  unless_failed-Orderly (some e) o app v = (v, λ h. absurd cc)

  stop_at-Orderly :
      (st : State) (o : Answers) (app : ServiceApp)
      → Inv app
      → Inv (stop_at show st o app).1
        × (IsStopping st → (stop_at show st o app).0 ≡ none → IsClean (stop_at show st o app).1)
  unfolding stop_resources
  stop_at-Orderly stopped o app v = (v, λ h. absurd (stopped_rests h))
  stop_at-Orderly created o app v = (v, λ h. absurd (created_rests h))
  stop_at-Orderly running o app v =
      let (v', clean) =
        unless_failed-Orderly app.shutdown.failure o (record app { state = stopping }) v in
      (v', λ h. clean)
  stop_at-Orderly stopping o app v =
      let (v', clean) = unless_failed-Orderly app.shutdown.failure o app v in (v', λ h. clean)
  stop_at-Orderly starting o app v = (v, λ h. absurd (starting_rests h))

  with_lock-Orderly :
      (b : Bool) (app : ServiceApp) (r : Result × ServiceApp)
      → Inv app
      → Inv r.1 × (r.0 ≡ none → IsClean r.1)
      → Orderly (with_lock b app r)
  with_lock-Orderly true app r v w = (v, λ e. absurd cc)
  with_lock-Orderly false app r v w = w

  -- The phases of a shutdown are in order: before the cursor every job is completed, and behind the
  -- phase of the cursor none was started. A call of `stop` keeps that, whatever the environment
  -- answers, so also where it is cut short by its context or a job fails. Where it returns without an
  -- error from a running or stopping service, the service is stopped and every job is completed.
  pub stop_complete :
      (o : Answers) (app : ServiceApp)
      → Inv app
      → (app.state ≡ running) ⊎ (app.state ≡ stopping)
      → Inv (stop show o app).1 × (((stop show o app).0 ≡ none) → IsClean (stop show o app).1)
  unfolding stop
  stop_complete o app v st =
      let (v', clean) = stop_at-Orderly app.state o app v in
      with_lock-Orderly o.lock_cancelled app (stop_at show app.state o app) v (v', clean st)
