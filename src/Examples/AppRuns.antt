-- ===== src/Examples/AppRuns.antt =====
-- Runs of the service: a shutdown that is cut short once, and a start that fails.
use Prim.Native.String.{String}
use rustservicelib.Base.{
  [], ◌∷◌, none, some, Bool, true, false, ◌≡◌, refl, inl, ◌==◌, nat_eq, if◌then◌else◌,
}
use rustservicelib.App.{
  RuntimeError, Result, State, ServiceApp, Answers, context_cancelled, transport, created, running,
  ok, late, drained, job, shutdown_phases, stop, drain_phases, drain_server, run_phases, wait_jobs,
  stop_resources,
}
use rustservicelib.App.Stop.{Inv, IsClean, stop_complete}
use rustservicelib.App.Retry.{IsGentle, stops}
use rustservicelib.App.Ends.{stop_ends}
use rustservicelib.App.Start.{
  StartAction, graph_actions, admission_actions, start_actions, start_all, start, IsAdmittedLast,
  admission_last, start_source,
}
use rustservicelib.App.Cleanup.{IsUndone, failed_start_cleans}

abbrev text_of : RuntimeError → String
text_of e = "error"

abbrev service : State → ServiceApp
service state = record {
  task_pools = 7 ∷ [];
  priority_task_pools = [];
  storages = 8 ∷ [];
  endpoint_consumers = [];
  sources = (1, 10) ∷ [];
  sinks = (2, 20) ∷ [];
  components = 5 ∷ [];
  grpc_routes = false;
  grpc_task = false;
  http_task = true;
  state = state;
  shutdown = record { phase = 0; phases = none; failure = none };
}

abbrev all_well : Answers
all_well = record {
  lock_cancelled = false;
  grpc = drained;
  http = drained;
  cancelled = λ p. false;
  jobs = λ p i. ok;
}

-- The context ends while the second job of the second phase runs.
abbrev cut_short : Answers
cut_short = record {
  lock_cancelled = false;
  grpc = drained;
  http = drained;
  cancelled = λ p. false;
  jobs = λ p i. if p == 1 then (if i == 1 then late else ok) else ok;
}

abbrev after_cut : ServiceApp
after_cut = (stop text_of cut_short (service running)).1

cut_phase :
    (after_cut.shutdown.phase ≡ 1)
    × ((stop text_of cut_short (service running)).0 ≡ some context_cancelled)
unfolding stop stop_resources drain_server drain_phases run_phases wait_jobs shutdown_phases job
cut_phase = (refl, refl)

abbrev stopped_after : ServiceApp
stopped_after = (stop text_of all_well (service running)).1

stop_complete_example :
    Inv stopped_after
    × (((stop text_of all_well (service running)).0 ≡ none) → IsClean stopped_after)
stop_complete_example = stop_complete text_of all_well (service running) refl (inl refl)

late_or_ok : (b c : Bool) → IsGentle (if b then (if c then late else ok) else ok)
late_or_ok true true = tt
late_or_ok true false = tt
late_or_ok false c = tt

stop_ends_example :
    (stop text_of all_well (stops text_of (cut_short ∷ []) (service running))).0 ≡ none
stop_ends_example =
    stop_ends text_of (cut_short ∷ []) all_well (service running)
      ((tt, tt, λ p i. late_or_ok (p == 1) (i == 1)), tt) (refl, refl, refl, λ p. refl, λ p i. refl)
      (inl refl) refl

-- Every action succeeds but the start of the source.
abbrev source_fails : StartAction → Result
source_fails (start_source s) = some (transport "unreachable")
source_fails _ = none

admission_last_example :
    IsAdmittedLast (service created) (start text_of source_fails all_well true (service created)).1
admission_last_example = admission_last text_of source_fails all_well true (service created)

failed_start_cleans_example :
    ((start text_of source_fails all_well true (service created)).0
      ≡ some (transport "unreachable"))
    × IsUndone
        (start_all source_fails (start_actions true (service created))).0
        (start text_of source_fails all_well true (service created)).2
unfolding start_all start_actions graph_actions admission_actions
failed_start_cleans_example =
    failed_start_cleans text_of source_fails all_well true (service created)
      (transport "unreachable") refl refl refl refl (refl, refl, refl, λ p. refl, λ p i. refl) refl
