-- ===== src/App/Ends.antt =====
-- A call of `ServiceApp::stop` of src/runtime/serviceapp.rs that is not cut short ends the service.
use Prim.Native.String.{String}
use rustservicelib.Base.{
  ℕ, zero, suc, List, [], ◌∷◌, map, Option, none, some, Bool, true, false, All, ◌≡◌, refl, ◌∙◌, ap,
  inl, inr, ◌⊎◌,
}
use rustservicelib.App.{
  RuntimeError, Result, State, ShutdownJob, ServiceApp, Answer, Answers, Phased, created, starting,
  running, stopping, stopped, ok, drained, run_phases, drain_server, phased, unless_failed,
  drain_phases, drained_http, drained_grpc, stop_resources, stop_at, stop, with_lock, spawn_job,
  awaited, wait_jobs, after_wait, run_phase,
}
use rustservicelib.App.Stop.{IsStopping}
use rustservicelib.App.Retry.{IsPatient, IsGood, stops, stops-IsClosing}

awaited_ok :
    (b : Bool) (j : ShutdownJob) (js : List ShutdownJob) (rest : List ShutdownJob × Result)
    → (awaited b ok j js rest).1 ≡ rest.1
awaited_ok true j js rest = refl
awaited_ok false j js rest = refl

wait_jobs_ok :
    (answers : ℕ → Answer) (i : ℕ) (js : List ShutdownJob)
    → ((i : ℕ) → answers i ≡ ok)
    → (wait_jobs answers i js).1 ≡ none
unfolding wait_jobs
wait_jobs_ok answers i [] g = refl
wait_jobs_ok answers i (j ∷ js) g =
    ap (λ a. (awaited j.completed a j js (wait_jobs answers (suc i) js)).1) (g i)
    ∙ awaited_ok j.completed j js (wait_jobs answers (suc i) js)
    ∙ wait_jobs_ok answers (suc i) js g

after_wait_ok :
    (r : List ShutdownJob × Result) (p : ℕ) (phases : List (List ShutdownJob)) (rest : Phased)
    → r.1 ≡ none
    → (after_wait r p phases rest).2 ≡ rest.2
after_wait_ok (js, none) p phases rest h = refl
after_wait_ok (js, some e) p phases rest h = absurd cc

run_phases_ok :
    (o : Answers) (n p : ℕ) (phases : List (List ShutdownJob))
    → IsGood o
    → (run_phases o n p phases).2 ≡ none
unfolding run_phases
run_phases_ok o zero p [] g = refl
run_phases_ok o (suc n) p [] g = refl
run_phases_ok o (suc n) p (js ∷ phases) g = run_phases_ok o n (suc p) phases g
run_phases_ok o zero p (js ∷ phases) g =
    let rest = run_phases o zero (suc p) phases in
    ap (λ b. (run_phase b (o.jobs p) p js phases rest).2) (g.3 p)
    ∙ after_wait_ok (wait_jobs (o.jobs p) 0 (map spawn_job js)) p phases rest
        (wait_jobs_ok (o.jobs p) 0 (map spawn_job js) (g.4 p))
    ∙ run_phases_ok o zero (suc p) phases g

drain_server_ok : (left : Bool) → (drain_server left drained).0 ≡ none
unfolding drain_server
drain_server_ok true = refl
drain_server_ok false = refl

module _ (show : RuntimeError → String) where
  phased_ok : (r : Phased) (app : ServiceApp) → r.2 ≡ none → (phased show r app).0 ≡ none
  phased_ok (p, phases, none) app h = refl
  phased_ok (p, phases, some e) app h = absurd cc

  drained_http_ok :
      (o : Answers) (d : Result × Bool) (app : ServiceApp)
      → IsGood o
      → d.0 ≡ none
      → (drained_http show o d app).0 ≡ none
  unfolding drain_phases
  drained_http_ok o (none, left) app g h =
      phased_ok _ (record app { http_task = left }) (run_phases_ok o app.shutdown.phase 0 _ g)
  drained_http_ok o (some e, left) app g h = absurd cc

  drained_grpc_ok :
      (o : Answers) (d : Result × Bool) (app : ServiceApp)
      → IsGood o
      → d.0 ≡ none
      → (drained_grpc show o d app).0 ≡ none
  drained_grpc_ok o (none, left) app g h =
      drained_http_ok o (drain_server app.http_task o.http) (record app { grpc_task = left }) g
        (ap (λ a. (drain_server app.http_task a).0) g.2 ∙ drain_server_ok app.http_task)
  drained_grpc_ok o (some e, left) app g h = absurd cc

  unless_failed_ok :
      (failure : Option String) (o : Answers) (app : ServiceApp)
      → IsGood o
      → failure ≡ none
      → (unless_failed show failure o app).0 ≡ none
  unless_failed_ok (some e) o app g h = absurd cc
  unless_failed_ok none o app g h =
      drained_grpc_ok o (drain_server app.grpc_task o.grpc) app g
        (ap (λ a. (drain_server app.grpc_task a).0) g.1 ∙ drain_server_ok app.grpc_task)

  starting_open : IsStopping starting ⊎ (starting ≡ stopped) → ⊥
  starting_open (inl (inl e)) = cc
  starting_open (inl (inr e)) = cc
  starting_open (inr e) = cc

  stop_at_ok :
      (st : State) (o : Answers) (app : ServiceApp)
      → IsGood o
      → IsStopping st ⊎ (st ≡ stopped)
      → app.shutdown.failure ≡ none
      → (stop_at show st o app).0 ≡ none
  unfolding stop_resources
  stop_at_ok stopped o app g s f = refl
  stop_at_ok created o app g s f = refl
  stop_at_ok running o app g s f =
      unless_failed_ok app.shutdown.failure o (record app { state = stopping }) g f
  stop_at_ok stopping o app g s f = unless_failed_ok app.shutdown.failure o app g f
  stop_at_ok starting o app g s f = absurd (starting_open s)

  with_lock_ok :
      (b : Bool) (app : ServiceApp) (r : Result × ServiceApp)
      → b ≡ false
      → r.0 ≡ none
      → (with_lock b app r).0 ≡ none
  with_lock_ok true app r h k = absurd cc
  with_lock_ok false app r h k = k

  -- A running or stopping service without a failure: however often calls of `stop` are cut short by
  -- their contexts, at any phase, a call that is not cut short and whose servers and jobs all end
  -- well returns without an error.
  pub stop_ends :
      (os : List Answers) (o : Answers) (app : ServiceApp)
      → All IsPatient os
      → IsGood o
      → (app.state ≡ running) ⊎ (app.state ≡ stopping)
      → app.shutdown.failure ≡ none
      → (stop show o (stops show os app)).0 ≡ none
  unfolding stop
  stop_ends os o app h g st f =
      let late = stops show os app in
      let (st', f') = stops-IsClosing show os app h (inl st, f) in
      with_lock_ok o.lock_cancelled late (stop_at show late.state o late) g.0
        (stop_at_ok late.state o late g st' f')
