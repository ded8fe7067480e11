-- ===== src/Pool/Actor.antt =====
-- src/runtime/pool/queuedpool.rs, `QueuedPool::run`: the task that owns the queue, the executors and
-- the state of the pool. One round of its loop handles one event, starts or retires executors, and
-- hands queued tasks to idle ones. `none` is a panic (an `unwrap`, a missing executor, `busy - 1`).
-- Counters of ids are unbounded here; the source's are `u64`. Metrics are left out.
pub mod Crew
pub mod Invariant
pub mod Lifecycle
use rustservicelib.Base.{
  ℕ, zero, suc, ◌+◌, ◌-◌, List, [], ◌∷◌, ◌++◌, Option, none, some, Bool, true, false, ◌==◌, nat_eq,
  if◌then◌else◌, ◌>>=◌, ◌>>◌, ltb, length, lookup, insert, remove, contains_key, ◌&&◌, not,
}
use rustservicelib.Base.Int.{ℤ}
use rustservicelib.Pool.Pending
use rustservicelib.Pool.Pending.{PendingQueue}

pub data Reply : Type 0 where
  accepted : Reply
  resource_stopped : Reply
  context_cancelled : Reply

-- What the loop's `select!` takes: a cancellation of a queued task's context, a command, the
-- closing of the command channel, or the end of a worker task.
pub data Event {ℓ} (E : Type ℓ) : Type ℓ where
  cancelled : ℕ → Event E
  add : Bool → ℤ → E → Event E
  start : ℕ → Event E
  resize : ℕ → Event E
  stop : Event E
  ready : ℕ → Event E
  closed : Event E
  joined : Event E

pub record Actor {ℓ} (E : Type ℓ) : Type ℓ where
  pub queue : PendingQueue E
  pub executors : List (ℕ × Unit {0})  -- the value stands for the sender
  pub idle : List ℕ
  pub workers : ℕ  -- tasks in the `JoinSet`
  pub next_worker : ℕ
  pub busy : ℕ
  pub retiring : Bool
  pub next_id : ℕ
  pub target : ℕ
  pub started : Bool
  pub stopped : Bool
  pub receiving : Bool

-- `while executors.len() > target && !idle.is_empty()`.
unfoldable pub retire : ℕ → List ℕ → List (ℕ × Unit {0}) → List ℕ × List (ℕ × Unit {0})
retire target [] executors = ([], executors)
retire target (w ∷ idle) executors =
    let rest = retire target idle (remove w executors) in
    if ltb target (length executors) then rest else (w ∷ idle, executors)

-- `executors[&worker]`.
abbrev has_executor : ℕ → List (ℕ × Unit {0}) → Option (Unit {0})
has_executor w executors = if contains_key w executors then some tt else none

module _ {ℓ} {E : Type ℓ} where
  unfoldable pub init : Bool → ℕ → Actor E
  init priority target = record {
    queue = Pending.new priority;
    executors = [];
    idle = [];
    workers = 0;
    next_worker = 0;
    busy = 0;
    retiring = false;
    next_id = 0;
    target = target;
    started = false;
    stopped = false;
    receiving = true;
  }

  -- `Command::Add`: the reply, and the actor with the task queued.
  unfoldable pub admit : Bool → ℤ → E → Actor E → Option (List Reply × Actor E)
  admit is_cancelled p e a =
      if a.stopped
      then some (resource_stopped ∷ [], a)
      else if is_cancelled
      then some (context_cancelled ∷ [], a)
      else (Pending.push a.next_id p e a.queue >>= λ q.
          some (accepted ∷ [], record a { queue = q; next_id = suc a.next_id }))

  abbrev release : ℕ → ℕ → Actor E → Option (List Reply × Actor E)
  release w zero a = none
  release w (suc busy) a = some ([], record a { busy = busy; idle = a.idle ++ w ∷ [] })

  -- The arms of the `select!`.
  unfoldable pub handle : Event E → Actor E → Option (List Reply × Actor E)
  handle (cancelled id) a = Pending.promote id a.queue >>= λ r. some ([], record a { queue = r.1 })
  handle (add c p e) a = admit c p e a
  handle (start n) a = some ([], if a.stopped then a else record a { started = true; target = n })
  handle (resize n) a = some ([], if a.stopped then a else record a { target = n })
  handle stop a = some ([], record a { stopped = true; started = true })
  handle (ready w) a = release w a.busy a
  handle closed a = some ([], record a { receiving = false; stopped = true; started = true })
  handle joined a = some ([], record a { workers = a.workers - 1 })

  -- `while executors.len() < target`, in at most `rounds` rounds.
  unfoldable pub spawn : ℕ → Actor E → Actor E
  spawn zero a = a
  spawn (suc rounds) a =
      let w = a.next_worker in
      let rest = spawn rounds (record a {
        next_worker = suc w;
        executors = insert w tt a.executors;
        idle = a.idle ++ w ∷ [];
        workers = suc a.workers;
      }) in
      if ltb (length a.executors) a.target then rest else a

  -- `while !idle.is_empty() && !queue.is_empty()`: the tasks that were sent, with their executors.
  unfoldable pub dispatch :
      List ℕ
      → ℕ
      → List (ℕ × Unit {0})
      → PendingQueue E
      → Option (List (ℕ × E) × List ℕ × ℕ × PendingQueue E)
  dispatch [] busy executors q = some ([], [], busy, q)
  dispatch (w ∷ idle) busy executors q =
      let next : Option (List (ℕ × E) × List ℕ × ℕ × PendingQueue E) = Pending.pop q >>= λ p.
      (p.0 >>= λ t.
      (has_executor w executors
        >> (dispatch idle (suc busy) executors p.1 >>= λ r.
            some ((w, t.1) ∷ r.0, r.1, r.2, r.3)))) in
      if Pending.len q == 0 then some ([], w ∷ idle, busy, q) else next

  -- The part behind the `select!`, where `started && !retiring`.
  unfoldable pub schedule : Actor E → Option (List (ℕ × E) × Actor E)
  schedule a =
      let kept = retire a.target a.idle a.executors in
      let b = spawn a.target (record a { idle = kept.0; executors = kept.1 }) in
      dispatch b.idle b.busy b.executors b.queue >>= λ r.
      some (r.0, record b { idle = r.1; busy = r.2; queue = r.3 })

  unfoldable pub settle : Actor E → Actor E
  settle a =
      if a.stopped && (Pending.len a.queue == 0) && (a.busy == 0) && not a.retiring
      then record a { retiring = true; executors = []; idle = [] }
      else a

  -- One round of the loop: the replies, the tasks sent, and the actor.
  unfoldable pub round : Event E → Actor E → Option (List Reply × List (ℕ × E) × Actor E)
  round ev a = handle ev a >>= λ h.
      ((if h.1.started && not h.1.retiring then schedule h.1 else some ([], h.1)) >>= λ s.
      some (h.0, s.0, settle s.1))

  -- The loop ends after a round with this.
  unfoldable pub is_done : Actor E → Bool
  is_done a = a.retiring && (a.workers == 0)
