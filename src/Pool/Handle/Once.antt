-- ===== src/Pool/Handle/Once.antt =====
-- What the shared steps of the calls of src/runtime/pool/queuedpool.rs do once at most.
use rustservicelib.Base.{ℕ, ◌+◌, ◌≤◌, if◌then◌else◌, total, arith, ◌≡◌}
use rustservicelib.Pool.Handle
use rustservicelib.Pool.Handle.{
  QueuedPool, PoolState, Sent, Stage, Shared, created, started, stopped, start_launches,
  start_sends, stop_sends, launch, send, starts, stops,
}

abbrev pub stop_count : PoolState → ℕ
stop_count created = 0
stop_count started = 0
stop_count stopped = 1

abbrev pub most_starts : PoolState → ℕ
most_starts created = 0
most_starts started = 1
most_starts stopped = 1

-- A call that is to send a start.
abbrev pub will_start : Stage → ℕ
will_start start_launches = 1
will_start start_sends = 1
will_start _ = 0

-- A call that is to send a stop.
abbrev pub will_stop : Stage → ℕ
will_stop stop_sends = 1
will_stop _ = 0

abbrev pub IsOne : QueuedPool → Type 0
IsOne p = p.actors ≡ (if p.launched then 1 else 0)

pub launch-state : (p : QueuedPool) → (launch p).state ≡ p.state
unfolding launch
launch-state p = ground arith

pub launch-sent : (p : QueuedPool) → (launch p).sent ≡ p.sent
unfolding launch
launch-sent p = ground arith

pub send-state : (c : Sent) (p : QueuedPool) → (send c p).state ≡ p.state
unfolding send
send-state c p = ground arith

-- What a step may add to the commands, sent or to be sent, the state pays for.
abbrev Pays : Stage × QueuedPool → Stage × QueuedPool → Type 0
Pays a b =
    (IsOne a.1 → IsOne b.1)
    × (starts b.1.sent + will_start b.0 + most_starts a.1.state
        ≤ starts a.1.sent + will_start a.0 + most_starts b.1.state)
    × (stops b.1.sent + will_stop b.0 + stop_count a.1.state
        ≤ stops a.1.sent + will_stop a.0 + stop_count b.1.state)

-- The commands that were sent, with those that calls are still to send, fit the state: one start if
-- it has left `created`, one stop if it is stopped; and there is an actor where one was launched.
pub record IsInStep (w : Shared) : Type 0 where
  pub one_actor : IsOne w.pool
  pub one_start : starts w.pool.sent + total will_start w.calls ≤ most_starts w.pool.state
  pub one_stop : stops w.pool.sent + total will_stop w.calls ≤ stop_count w.pool.state
