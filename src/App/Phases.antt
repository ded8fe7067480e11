-- ===== src/App/Phases.antt =====
-- The phases of a shutdown in src/runtime/serviceapp.rs run one after the other.
use rustservicelib.Base.{
  ℕ, zero, suc, ◌+◌, ◌≤◌, List, [], ◌∷◌, map, none, some, Bool, true, false, All, ◌≡◌, refl, arith,
}
use rustservicelib.App.{
  ShutdownJob, Answer, Answers, Result, Phased, ok, error, late, spawn_job, awaited, wait_jobs,
  after_wait, run_phase, run_phases,
}

abbrev pub IsDone : ShutdownJob → Type 0
IsDone j = j.completed ≡ true

abbrev pub IsUntouched : ShutdownJob → Type 0
IsUntouched j = (j.task ≡ false) × (j.completed ≡ false)

-- Before the cursor all jobs are completed, and behind its phase none was started.
abbrev pub IsOrdered : ℕ → List (List ShutdownJob) → Type 0
IsOrdered zero [] = Unit
IsOrdered (suc n) [] = ⊥
IsOrdered zero (js ∷ phases) = All (All IsUntouched) phases
IsOrdered (suc n) (js ∷ phases) = All IsDone js × IsOrdered n phases

awaited-IsDone :
    (b : Bool) (a : Answer) (j : ShutdownJob) (js : List ShutdownJob)
    → (rest : List ShutdownJob × Result) → j.completed ≡ b
    → (rest.1 ≡ none → All IsDone rest.0)
    → (awaited b a j js rest).1 ≡ none
    → All IsDone (awaited b a j js rest).0
awaited-IsDone true a j js rest c k h = (c, k h)
awaited-IsDone false ok j js rest c k h = (refl, k h)
awaited-IsDone false (error e) j js rest c k h = absurd cc
awaited-IsDone false late j js rest c k h = absurd cc

wait_jobs-IsDone :
    (answers : ℕ → Answer) (i : ℕ) (js : List ShutdownJob)
    → (wait_jobs answers i js).1 ≡ none
    → All IsDone (wait_jobs answers i js).0
unfolding wait_jobs
wait_jobs-IsDone answers i [] h = tt
wait_jobs-IsDone answers i (j ∷ js) h =
    awaited-IsDone j.completed (answers i) j js (wait_jobs answers (suc i) js) refl
      (wait_jobs-IsDone answers (suc i) js) h

-- What a run of the phases leaves: the cursor has moved by some phases, in order, and past the last
-- one where there is no error.
abbrev pub Advanced : ℕ → ℕ → Phased → Type 0
Advanced n p r =
    (k : ℕ) × (r.0 ≡ p + k) × (n ≤ k) × IsOrdered k r.1 × ((r.2 ≡ none) → All (All IsDone) r.1)

IsUntouched-IsOrdered :
    (phases : List (List ShutdownJob)) → All (All IsUntouched) phases → IsOrdered zero phases
IsUntouched-IsOrdered [] h = tt
IsUntouched-IsOrdered (js ∷ phases) h = h.1

after_wait-Advanced :
    (r : List ShutdownJob × Result) (p : ℕ) (phases : List (List ShutdownJob)) (rest : Phased)
    → (r.1 ≡ none → All IsDone r.0)
    → All (All IsUntouched) phases
    → Advanced zero (suc p) rest
    → Advanced zero p (after_wait r p phases rest)
after_wait-Advanced (js, none) p phases rest done h (k, at, le, order, all) =
    (suc k, omega (arith, at), omega arith, (done refl, order), λ e. (done refl, all e))
after_wait-Advanced (js, some e) p phases rest done h r =
    (zero, omega arith, omega arith, h, λ e. absurd cc)

run_phase-Advanced :
    (b : Bool) (answers : ℕ → Answer) (p : ℕ) (js : List ShutdownJob)
    → (phases : List (List ShutdownJob)) (rest : Phased) → All (All IsUntouched) phases
    → Advanced zero (suc p) rest
    → Advanced zero p (run_phase b answers p js phases rest)
run_phase-Advanced true answers p js phases rest h r =
    (zero, omega arith, omega arith, h, λ e. absurd cc)
run_phase-Advanced false answers p js phases rest h r =
    after_wait-Advanced (wait_jobs answers 0 (map spawn_job js)) p phases rest
      (wait_jobs-IsDone answers 0 (map spawn_job js)) h r

pub run_phases-Advanced :
    (o : Answers) (n p : ℕ) (phases : List (List ShutdownJob))
    → IsOrdered n phases
    → Advanced n p (run_phases o n p phases)
unfolding run_phases
run_phases-Advanced o zero p [] h = (zero, omega arith, omega arith, tt, λ e. tt)
run_phases-Advanced o (suc n) p [] h = absurd h
run_phases-Advanced o zero p (js ∷ phases) h =
    run_phase-Advanced (o.cancelled p) (o.jobs p) p js phases (run_phases o zero (suc p) phases) h
      (run_phases-Advanced o zero (suc p) phases (IsUntouched-IsOrdered phases h))
run_phases-Advanced o (suc n) p (js ∷ phases) (done, h) =
    let (k, at, le, order, all) = run_phases-Advanced o n (suc p) phases h in
    (suc k, omega (arith, at), omega (arith, le), (done, order), λ e. (done, all e))
