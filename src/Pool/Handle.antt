-- ===== src/Pool/Handle.antt =====
-- src/runtime/pool/queuedpool.rs, `QueuedPool`: the handle through which callers start a pool, add
-- tasks to it, resize it and stop it. Calls run at the same time: each is a sequence of steps, one for
-- each access to the atomic cells and for each send, and the steps of the calls come in any order.
-- Metrics and the waits for replies and for the end are left out.
pub mod Once
pub mod Stopped
use rustservicelib.Base.{
  modify_at, get_elem?, Option, none, some, ℕ, suc, zero, ◌+◌, ◌≤◌, List, [], ◌∷◌, ◌++◌, Bool, true,
  false, nat_eq, if◌then◌else◌, arith, ◌≡◌, refl, sym, ◌∙◌, ap, Bool-cases, inl, inr, ◌⊎◌, subst,
}
use rustservicelib.Base.Int.{ℤ}

-- The values 0, 1 and 2 of `state`.
pub data PoolState : Type 0 where
  created : PoolState
  started : PoolState
  stopped : PoolState

-- `Command`, as the handle sends it: a task is told by its priority.
pub data Sent : Type 0 where
  sent_add : ℤ → Sent
  sent_start : ℕ → Sent
  sent_resize : ℕ → Sent
  sent_stop : Sent

-- For `add_task`, `succeeded` says that the task was sent; the actor's reply is what the caller gets.
pub data CallResult : Type 0 where
  succeeded : CallResult
  already_started : CallResult
  is_stopped : CallResult
  is_cancelled : CallResult

pub record QueuedPool : Type 0 where
  pub state : PoolState
  pub launched : Bool
  pub actors : ℕ  -- how often the actor was spawned
  pub sent : List Sent
  pub is_open : Bool  -- the actor still has the receiver of the channel

-- A call of the handle; `add_task` says whether its context is cancelled.
pub data Call : Type 0 where
  start : Call
  reload_config : Call
  add_task : Bool → ℤ → Call
  stop : Call

-- What a call does next, or its result.
pub data Stage : Type 0 where
  start_exchanges : Stage
  start_launches : Stage
  start_sends : Stage
  reload_sends : Stage
  add_looks : Bool → ℤ → Stage
  add_loads : ℤ → Stage
  add_launches : ℤ → Stage
  add_sends : ℤ → Stage
  stop_launches : Stage
  stop_swaps : Stage
  stop_sends : Stage
  returned : CallResult → Stage

-- `resolve_executors`, with the answer of `available_parallelism`.
unfoldable pub resolve_executors : ℕ → ℕ → ℕ
resolve_executors parallelism zero = parallelism
resolve_executors parallelism (suc n) = suc n

unfoldable pub new : QueuedPool
new = record { state = created; launched = false; actors = 0; sent = []; is_open = true }

-- `launched.swap(true)`, and the spawn of the actor by the caller that set it.
unfoldable pub launch : QueuedPool → QueuedPool
launch p = if p.launched then p else record p { launched = true; actors = suc p.actors }

-- `sender.send`, which fails once the receiver is gone.
unfoldable pub send : Sent → QueuedPool → QueuedPool
send c p = if p.is_open then record p { sent = p.sent ++ c ∷ [] } else p

abbrev pub result_of : QueuedPool → CallResult
result_of p = if p.is_open then succeeded else is_stopped

-- `state.compare_exchange(0, 1)`.
abbrev pub exchanged : PoolState → QueuedPool → Stage × QueuedPool
exchanged created p = (start_launches, record p { state = started })
exchanged started p = (returned already_started, p)
exchanged stopped p = (returned is_stopped, p)

-- `state.load() == 2`.
abbrev pub loaded : ℤ → PoolState → QueuedPool → Stage × QueuedPool
loaded priority created p = (add_launches priority, p)
loaded priority started p = (add_launches priority, p)
loaded priority stopped p = (returned is_stopped, p)

-- `state.swap(2) != 2`.
abbrev pub swapped : PoolState → QueuedPool → Stage × QueuedPool
swapped created p = (stop_sends, record p { state = stopped })
swapped started p = (stop_sends, record p { state = stopped })
swapped stopped p = (returned succeeded, p)

-- One step of a call, where the configuration asks for `executors` at the time.
unfoldable pub advance : ℕ → Stage → QueuedPool → Stage × QueuedPool
advance executors start_exchanges p = exchanged p.state p
advance executors start_launches p = (start_sends, launch p)
advance executors start_sends p = (returned (result_of p), send (sent_start executors) p)
advance executors reload_sends p = (returned succeeded, send (sent_resize executors) p)
advance executors (add_looks true priority) p = (returned is_cancelled, p)
advance executors (add_looks false priority) p = (add_loads priority, p)
advance executors (add_loads priority) p = loaded priority p.state p
advance executors (add_launches priority) p = (add_sends priority, launch p)
advance executors (add_sends priority) p = (returned (result_of p), send (sent_add priority) p)
advance executors stop_launches p = (stop_swaps, launch p)
advance executors stop_swaps p = swapped p.state p
advance executors stop_sends p = (returned succeeded, send sent_stop p)
advance executors (returned r) p = (returned r, p)

unfoldable pub first_stage : Call → Stage
first_stage start = start_exchanges
first_stage reload_config = reload_sends
first_stage (add_task cancelled priority) = add_looks cancelled priority
first_stage stop = stop_launches

-- A pool with all calls that were made of it.
pub record Shared : Type 0 where
  pub pool : QueuedPool
  pub calls : List Stage

-- A caller makes a call, a call goes on, or the actor's loop has ended.
pub data Step : Type 0 where
  begins : Call → Step
  moves : ℕ → ℕ → Step
  actor_ends : Step

abbrev pub moved : ℕ → ℕ → Option Stage → Shared → Shared
moved i executors none w = w
moved i executors (some st) w =
    let r = advance executors st w.pool in
    record { pool = r.1; calls = modify_at i (λ _. r.0) w.calls }

unfoldable pub step : Step → Shared → Shared
step (begins c) w = record w { calls = w.calls ++ first_stage c ∷ [] }
step (moves i executors) w = moved i executors (get_elem? w.calls i) w
step actor_ends w = record w { pool = record w.pool { is_open = false } }

unfoldable pub run : List Step → Shared → Shared
run [] w = w
run (s ∷ ss) w = run ss (step s w)

abbrev pub starts : List Sent → ℕ
starts [] = 0
starts (sent_start n ∷ cs) = suc (starts cs)
starts (sent_add p ∷ cs) = starts cs
starts (sent_resize n ∷ cs) = starts cs
starts (sent_stop ∷ cs) = starts cs

abbrev pub stops : List Sent → ℕ
stops [] = 0
stops (sent_stop ∷ cs) = suc (stops cs)
stops (sent_add p ∷ cs) = stops cs
stops (sent_resize n ∷ cs) = stops cs
stops (sent_start n ∷ cs) = stops cs

abbrev pub tasks : List Sent → ℕ
tasks [] = 0
tasks (sent_add p ∷ cs) = suc (tasks cs)
tasks (sent_stop ∷ cs) = tasks cs
tasks (sent_resize n ∷ cs) = tasks cs
tasks (sent_start n ∷ cs) = tasks cs

pub starts-append : (xs ys : List Sent) → starts (xs ++ ys) ≡ starts xs + starts ys
starts-append [] ys = omega arith
starts-append (sent_add p ∷ xs) ys = omega (arith, starts-append xs ys)
starts-append (sent_start n ∷ xs) ys = omega (arith, starts-append xs ys)
starts-append (sent_resize n ∷ xs) ys = omega (arith, starts-append xs ys)
starts-append (sent_stop ∷ xs) ys = omega (arith, starts-append xs ys)

pub stops-append : (xs ys : List Sent) → stops (xs ++ ys) ≡ stops xs + stops ys
stops-append [] ys = omega arith
stops-append (sent_add p ∷ xs) ys = omega (arith, stops-append xs ys)
stops-append (sent_start n ∷ xs) ys = omega (arith, stops-append xs ys)
stops-append (sent_resize n ∷ xs) ys = omega (arith, stops-append xs ys)
stops-append (sent_stop ∷ xs) ys = omega (arith, stops-append xs ys)

pub tasks-append : (xs ys : List Sent) → tasks (xs ++ ys) ≡ tasks xs + tasks ys
tasks-append [] ys = omega arith
tasks-append (sent_add p ∷ xs) ys = omega (arith, tasks-append xs ys)
tasks-append (sent_start n ∷ xs) ys = omega (arith, tasks-append xs ys)
tasks-append (sent_resize n ∷ xs) ys = omega (arith, tasks-append xs ys)
tasks-append (sent_stop ∷ xs) ys = omega (arith, tasks-append xs ys)
