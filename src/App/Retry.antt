-- ===== src/App/Retry.antt =====
-- Calls of `ServiceApp::stop` of src/runtime/serviceapp.rs that are cut short, and one that is not.
use Prim.Native.String.{String}
use rustservicelib.Base.{
  ℕ, zero, suc, List, [], ◌∷◌, map, Option, none, some, Bool, true, false, All, ◌≡◌, refl, ap, inl,
  inr, ◌⊎◌,
}
use rustservicelib.App.{
  RuntimeError, Result, State, ShutdownJob, ServiceApp, Answer, Answers, ServerAnswer, Phased,
  context_cancelled, transport, created, starting, running, stopping, stopped, ok, error, late,
  drained, broken, server_late, run_phases, drain_server, failed_with, phased, phases_or,
  unless_failed, drain_phases, drained_http, drained_grpc, stop_resources, stop_at, stop, with_lock,
  shutdown_phases, spawn_job, awaited, wait_jobs, run_phase,
}
use rustservicelib.App.Stop.{IsStopping}

-- An answer that does not fail for good.
abbrev pub IsGentle : Answer → Type 0
IsGentle ok = Unit
IsGentle late = Unit
IsGentle (error e) = e ≡ context_cancelled

abbrev pub IsGentleServer : ServerAnswer → Type 0
IsGentleServer drained = Unit
IsGentleServer server_late = Unit
IsGentleServer (broken e) = ⊥

-- A call that may be cut short at any point, and in which nothing else fails.
abbrev pub IsPatient : Answers → Type 0
IsPatient o = IsGentleServer o.grpc × IsGentleServer o.http × ((p i : ℕ) → IsGentle (o.jobs p i))

-- A call that is not cut short, and in which nothing fails.
abbrev pub IsGood : Answers → Type 0
IsGood o =
    (o.lock_cancelled ≡ false)
    × (o.grpc ≡ drained)
    × (o.http ≡ drained)
    × ((p : ℕ) → o.cancelled p ≡ false)
    × ((p i : ℕ) → o.jobs p i ≡ ok)

abbrev Gentle : Result → Type 0
Gentle r = (r ≡ none) ⊎ (r ≡ some context_cancelled)

awaited-Gentle :
    (b : Bool) (a : Answer) (j : ShutdownJob) (js : List ShutdownJob)
    → (rest : List ShutdownJob × Result) → IsGentle a
    → Gentle rest.1
    → Gentle (awaited b a j js rest).1
awaited-Gentle true a j js rest g h = h
awaited-Gentle false ok j js rest g h = h
awaited-Gentle false (error e) j js rest g h = inr (ap some g)
awaited-Gentle false late j js rest g h = inr refl

wait_jobs-Gentle :
    (answers : ℕ → Answer) (i : ℕ) (js : List ShutdownJob)
    → ((i : ℕ) → IsGentle (answers i))
    → Gentle (wait_jobs answers i js).1
unfolding wait_jobs
wait_jobs-Gentle answers i [] g = inl refl
wait_jobs-Gentle answers i (j ∷ js) g =
    awaited-Gentle j.completed (answers i) j js (wait_jobs answers (suc i) js) (g i)
      (wait_jobs-Gentle answers (suc i) js g)

run_phase-Gentle :
    (b : Bool) (r : List ShutdownJob × Result) (answers : ℕ → Answer) (p : ℕ)
    → (js : List ShutdownJob) (phases : List (List ShutdownJob)) (rest : Phased)
    → wait_jobs answers 0 (map spawn_job js) ≡ r
    → Gentle r.1
    → Gentle rest.2
    → Gentle (run_phase b answers p js phases rest).2
run_phase-Gentle true r answers p js phases rest e g h = inr refl
run_phase-Gentle false (js', none) answers p js phases rest e g h = rw e h
run_phase-Gentle false (js', some x) answers p js phases rest e g h = rw e g

run_phases-Gentle :
    (o : Answers) (n p : ℕ) (phases : List (List ShutdownJob))
    → ((p i : ℕ) → IsGentle (o.jobs p i))
    → Gentle (run_phases o n p phases).2
unfolding run_phases
run_phases-Gentle o zero p [] g = inl refl
run_phases-Gentle o (suc n) p [] g = inl refl
run_phases-Gentle o (suc n) p (js ∷ phases) g = run_phases-Gentle o n (suc p) phases g
run_phases-Gentle o zero p (js ∷ phases) g =
    run_phase-Gentle (o.cancelled p) _ (o.jobs p) p js phases (run_phases o zero (suc p) phases)
      refl (wait_jobs-Gentle (o.jobs p) 0 (map spawn_job js) (g p))
      (run_phases-Gentle o zero (suc p) phases g)

drain_server-Gentle :
    (left : Bool) (a : ServerAnswer) → IsGentleServer a → Gentle (drain_server left a).0
unfolding drain_server
drain_server-Gentle false a g = inl refl
drain_server-Gentle true drained g = inl refl
drain_server-Gentle true (broken e) g = absurd g
drain_server-Gentle true server_late g = inr refl

-- A service on its way down, or down, without a failure.
abbrev pub IsClosing : ServiceApp → Type 0
IsClosing app = (IsStopping app.state ⊎ (app.state ≡ stopped)) × (app.shutdown.failure ≡ none)

module _ (show : RuntimeError → String) where
  failed_with-IsClosing :
      (e : RuntimeError) (app : ServiceApp)
      → some e ≡ some context_cancelled
      → IsClosing app
      → IsClosing (failed_with show e app).1
  failed_with-IsClosing context_cancelled app g (st, f) = (st, f)
  failed_with-IsClosing RuntimeError.resource_already_started app g v = absurd cc
  failed_with-IsClosing RuntimeError.resource_stopped app g v = absurd cc
  failed_with-IsClosing RuntimeError.duplicate_resource app g v = absurd cc
  failed_with-IsClosing (transport e) app g v = absurd cc
  failed_with-IsClosing (RuntimeError.other_error e) app g v = absurd cc

  Gentle-some : {e : RuntimeError} → Gentle (some e) → some e ≡ some context_cancelled
  Gentle-some (inl h) = absurd cc
  Gentle-some (inr h) = h

  phased-IsClosing :
      (r : Phased) (app : ServiceApp) → Gentle r.2 → IsClosing app → IsClosing (phased show r app).1
  phased-IsClosing (p, phases, none) app g (st, f) = (inr refl, f)
  phased-IsClosing (p, phases, some e) app g v =
      let after : ServiceApp = record app {
        shutdown = record app.shutdown { phase = p; phases = some phases };
      } in
      failed_with-IsClosing e after (Gentle-some g) v

  drain_phases-IsClosing :
      (o : Answers) (app : ServiceApp)
      → IsPatient o
      → IsClosing app
      → IsClosing (drain_phases show o app).1
  unfolding drain_phases
  drain_phases-IsClosing o app (_, _, g) v =
      phased-IsClosing _ app
        (run_phases-Gentle o app.shutdown.phase 0
          (phases_or (shutdown_phases app) app.shutdown.phases) g)
        v

  drained_http-IsClosing :
      (o : Answers) (d : Result × Bool) (app : ServiceApp)
      → Gentle d.0
      → IsPatient o
      → IsClosing app
      → IsClosing (drained_http show o d app).1
  drained_http-IsClosing o (none, left) app g h v =
      drain_phases-IsClosing o (record app { http_task = left }) h v
  drained_http-IsClosing o (some e, left) app g h v =
      failed_with-IsClosing e (record app { http_task = left }) (Gentle-some g) v

  drained_grpc-IsClosing :
      (o : Answers) (d : Result × Bool) (app : ServiceApp)
      → Gentle d.0
      → IsPatient o
      → IsClosing app
      → IsClosing (drained_grpc show o d app).1
  drained_grpc-IsClosing o (none, left) app g h v =
      drained_http-IsClosing o (drain_server app.http_task o.http) (record app { grpc_task = left })
        (drain_server-Gentle app.http_task o.http h.1) h v
  drained_grpc-IsClosing o (some e, left) app g h v =
      failed_with-IsClosing e (record app { grpc_task = left }) (Gentle-some g) v

  unless_failed-IsClosing :
      (failure : Option String) (o : Answers) (app : ServiceApp)
      → IsPatient o
      → IsClosing app
      → IsClosing (unless_failed show failure o app).1
  unless_failed-IsClosing (some e) o app h v = v
  unless_failed-IsClosing none o app h v =
      drained_grpc-IsClosing o (drain_server app.grpc_task o.grpc) app
        (drain_server-Gentle app.grpc_task o.grpc h.0) h v

  stop_at-IsClosing :
      (st : State) (o : Answers) (app : ServiceApp)
      → IsPatient o
      → IsClosing app
      → IsClosing (stop_at show st o app).1
  unfolding stop_resources
  stop_at-IsClosing stopped o app h v = v
  stop_at-IsClosing created o app h (st, f) = (inr refl, f)
  stop_at-IsClosing running o app h (st, f) =
      unless_failed-IsClosing app.shutdown.failure o (record app { state = stopping }) h
        (inl (inr refl), f)
  stop_at-IsClosing stopping o app h v = unless_failed-IsClosing app.shutdown.failure o app h v
  stop_at-IsClosing starting o app h v = v

  with_lock-IsClosing :
      (b : Bool) (app : ServiceApp) (r : Result × ServiceApp)
      → IsClosing app
      → IsClosing r.1
      → IsClosing (with_lock b app r).1
  with_lock-IsClosing true app r v w = v
  with_lock-IsClosing false app r v w = w

  stop-IsClosing :
      (o : Answers) (app : ServiceApp) → IsPatient o → IsClosing app → IsClosing (stop show o app).1
  unfolding stop
  stop-IsClosing o app h v =
      with_lock-IsClosing o.lock_cancelled app (stop_at show app.state o app) v
        (stop_at-IsClosing app.state o app h v)

  -- Calls of `stop`, one after the other.
  unfoldable pub stops : List Answers → ServiceApp → ServiceApp
  stops [] app = app
  stops (o ∷ os) app = stops os (stop show o app).1

  pub stops-IsClosing :
      (os : List Answers) (app : ServiceApp)
      → All IsPatient os
      → IsClosing app
      → IsClosing (stops os app)
  unfolding stops
  stops-IsClosing [] app h v = v
  stops-IsClosing (o ∷ os) app (h, hs) v =
      stops-IsClosing os (stop show o app).1 hs (stop-IsClosing o app h v)
