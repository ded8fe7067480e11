-- ===== src/Examples/PoolRuns.antt =====
-- A pool with one executor and a first-in first-out queue: it starts, accepts and sends a task, is
-- stopped, and ends when its executor is done.
use Prim.Native.String.{String}
use rustservicelib.Base.{
  Bool, total, one_of, ℕ, ◌+◌, List, [], ◌∷◌, none, some, true, false, nat_eq, ◌≡◌, refl, ◌⊎◌,
  lookup, insert, remove,
}
use rustservicelib.Base.Int.{pos}
use rustservicelib.Pool.Fifo
use rustservicelib.Pool.Fifo.Tally.{task_test}
use rustservicelib.Pool.Pending
use rustservicelib.Pool.Pending.{PendingQueue, fifo}
use rustservicelib.Pool.Actor.{
  Actor, Reply, add, start, stop, ready, joined, accepted, resource_stopped, init, admit, handle,
  retire, spawn, dispatch, schedule, settle, round, is_done,
}
use rustservicelib.Pool.Actor.Invariant.{
  Inv, IsPossible, IsScheduled, added, accepted_tasks, round-Inv,
}
use rustservicelib.Pool.Actor.Lifecycle.{Run, here, next, Run-conserves, Run-done, round_stopped}

abbrev started_pool : Actor String
started_pool = record {
  queue = fifo (record { entries = []; head = none; tail = none });
  executors = (0, tt) ∷ [];
  idle = 0 ∷ [];
  workers = 1;
  next_worker = 1;
  busy = 0;
  retiring = false;
  next_id = 0;
  target = 1;
  started = true;
  stopped = false;
  receiving = true;
}

abbrev busy_pool : Actor String
busy_pool = record started_pool { idle = []; busy = 1; next_id = 1 }

abbrev stopped_pool : Actor String
stopped_pool = record busy_pool { stopped = true }

abbrev retiring_pool : Actor String
retiring_pool = record stopped_pool { executors = []; idle = []; busy = 0; retiring = true }

abbrev ended_pool : Actor String
ended_pool = record retiring_pool { workers = 0 }

starts : round (start 1) (init {E = String} false 1) ≡ some ([], [], started_pool)
unfolding round handle schedule retire spawn dispatch settle init insert Pending.new Fifo.new
    Pending.len Fifo.len
starts = refl

accepts :
    round (add false (pos 5) "t") started_pool ≡ some (accepted ∷ [], (0, "t") ∷ [], busy_pool)
unfolding round handle admit schedule retire spawn dispatch settle insert lookup remove Pending.len
    Fifo.len Pending.push Fifo.push Pending.pop Fifo.pop
accepts = refl

stops : round stop busy_pool ≡ some ([], [], stopped_pool)
unfolding round handle schedule retire spawn dispatch settle Pending.len Fifo.len
stops = refl

retires : round (ready 0) stopped_pool ≡ some ([], [], retiring_pool)
unfolding round handle schedule retire spawn dispatch settle Pending.len Fifo.len
retires = refl

ends : round joined retiring_pool ≡ some ([], [], ended_pool)
unfolding round handle settle Pending.len Fifo.len
ends = refl

refuses :
    round (add false (pos 5) "u") stopped_pool ≡ some (resource_stopped ∷ [], [], stopped_pool)
unfolding round handle admit schedule retire spawn dispatch settle Pending.len Fifo.len
refuses = refl

to_stopped : Run (init {E = String} false 1) ("t" ∷ []) ((0, "t") ∷ []) stopped_pool
to_stopped =
    next (next (next here (start 1) tt starts) (add false (pos 5) "t") tt accepts) stop tt stops

ready-IsPossible : IsPossible (ready 0) stopped_pool
unfolding lookup
ready-IsPossible = (refl, refl)

to_ended : Run (init {E = String} false 1) ("t" ∷ []) ((0, "t") ∷ []) ended_pool
to_ended = next (next to_stopped (ready 0) ready-IsPossible retires) joined tt ends

is_ended : is_done ended_pool ≡ true
unfolding is_done
is_ended = refl

Run-conserves_example :
    Inv stopped_pool
    × ((t : String → Bool)
        → Pending.tally t stopped_pool.queue + total (task_test t) ((0, "t") ∷ [])
          ≡ total (one_of t) ("t" ∷ []))
Run-conserves_example = Run-conserves false 1 ("t" ∷ []) ((0, "t") ∷ []) stopped_pool to_stopped

stopped_pool-Inv : Inv stopped_pool
stopped_pool-Inv = (Run-conserves false 1 ("t" ∷ []) ((0, "t") ∷ []) stopped_pool to_stopped).0

Run-done_example :
    ((t : String → Bool) → total (task_test t) ((0, "t") ∷ []) ≡ total (one_of t) ("t" ∷ []))
    × (ended_pool.busy ≡ 0)
Run-done_example = Run-done false 1 ("t" ∷ []) ((0, "t") ∷ []) ended_pool to_ended is_ended

round-Inv_example :
    (rs : List Reply) × (sent : List (ℕ × String)) × (b : Actor String) × (round
        (ready 0)
        stopped_pool
      ≡ some (rs, sent, b))
    × Inv b
    × ((t : String → Bool)
        → Pending.tally t b.queue + total (task_test t) sent
          ≡ Pending.tally t stopped_pool.queue + total (one_of t) (accepted_tasks (ready 0) rs))
    × ((b.started ≡ false) ⊎ ((b.retiring ≡ true) ⊎ IsScheduled b))
round-Inv_example = round-Inv (ready 0) stopped_pool ready-IsPossible stopped_pool-Inv

round_stopped_example : (added (resource_stopped ∷ []) ≡ 0) × (stopped_pool.stopped ≡ true)
round_stopped_example =
    round_stopped (add false (pos 5) "u") stopped_pool stopped_pool (resource_stopped ∷ []) [] refl
      refuses
