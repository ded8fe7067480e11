-- ===== src/Pool/Handle/Stopped.antt =====
-- What a stopped pool of src/runtime/pool/queuedpool.rs still sends, and what a call that raced with the
-- stop does.
use rustservicelib.Base.{
  ℕ, ◌+◌, ◌≤◌, List, [], ◌∷◌, Option, none, some, true, false, get_elem?, total, total-append,
  total-modify_at, arith, ◌≡◌, refl, ◌∙◌, ap, Bool-cases, inl, inr,
}
use rustservicelib.Pool.Handle
use rustservicelib.Pool.Handle.{
  QueuedPool, PoolState, Sent, Stage, Shared, Step, Call, created, started, stopped, sent_add,
  sent_start, sent_resize, sent_stop, start_exchanges, start_launches, start_sends, reload_sends,
  add_looks, add_loads, add_launches, add_sends, stop_launches, stop_swaps, stop_sends, returned,
  launch, send, advance, first_stage, begins, moves, actor_ends, moved, step, run, tasks,
  tasks-append, start, stop, reload_config, add_task,
}
use rustservicelib.Pool.Handle.Once.{launch-state, launch-sent, send-state}

-- A call that has read the state before it was stopped, and is to send its task.
abbrev pub will_add : Stage → ℕ
will_add (add_launches priority) = 1
will_add (add_sends priority) = 1
will_add _ = 0

send-tasks : (c : Sent) (p : QueuedPool) → tasks (send c p).sent ≤ tasks p.sent + tasks (c ∷ [])
unfolding send
send-tasks c p = elim (Bool-cases p.is_open) [
  | inl yet ↦ rw yet (omega (arith, tasks-append p.sent (c ∷ [])))
  | inr gone ↦ rw gone (omega arith)
]

-- A step of a call on a stopped pool, which brings no task that was not to be sent.
abbrev Brings : Stage × QueuedPool → Stage × QueuedPool → Type 0
Brings a b = (b.1.state ≡ stopped) × (tasks b.1.sent + will_add b.0 ≤ tasks a.1.sent + will_add a.0)

launch-Brings :
    (a b : Stage) (p : QueuedPool)
    → p.state ≡ stopped
    → will_add a ≡ will_add b
    → Brings (a, p) (b, launch p)
launch-Brings a b p e h = (launch-state p ∙ e, omega (arith, h, ap tasks (launch-sent p)))

send-Brings :
    (a b : Stage) (c : Sent) (p : QueuedPool)
    → p.state ≡ stopped
    → will_add b + tasks (c ∷ []) ≤ will_add a
    → Brings (a, p) (b, send c p)
send-Brings a b c p e h = (send-state c p ∙ e, omega (arith, h, send-tasks c p))

advance-Brings :
    (n : ℕ) (st : Stage) (p : QueuedPool) → p.state ≡ stopped → Brings (st, p) (advance n st p)
unfolding advance
advance-Brings n start_exchanges p e = rw e (refl, omega arith)
advance-Brings n start_launches p e = launch-Brings start_launches start_sends p e refl
advance-Brings n start_sends p e =
    send-Brings start_sends (returned (Handle.result_of p)) (sent_start n) p e (omega arith)
advance-Brings n reload_sends p e =
    send-Brings reload_sends (returned Handle.succeeded) (sent_resize n) p e (omega arith)
advance-Brings n (add_looks true priority) p e = (e, omega arith)
advance-Brings n (add_looks false priority) p e = (e, omega arith)
advance-Brings n (add_loads priority) p e = rw e (refl, omega arith)
advance-Brings n (add_launches priority) p e =
    launch-Brings (add_launches priority) (add_sends priority) p e refl
advance-Brings n (add_sends priority) p e =
    send-Brings (add_sends priority) (returned (Handle.result_of p)) (sent_add priority) p e
      (omega arith)
advance-Brings n stop_launches p e = launch-Brings stop_launches stop_swaps p e refl
advance-Brings n stop_swaps p e = rw e (refl, omega arith)
advance-Brings n stop_sends p e =
    send-Brings stop_sends (returned Handle.succeeded) sent_stop p e (omega arith)
advance-Brings n (returned r) p e = (e, omega arith)

abbrev Less : Shared → Shared → Type 0
Less w u =
    (u.pool.state ≡ stopped)
    × (tasks u.pool.sent + total will_add u.calls ≤ tasks w.pool.sent + total will_add w.calls)

moved-Less :
    (i n : ℕ) (o : Option Stage) (w : Shared)
    → get_elem? w.calls i ≡ o
    → w.pool.state ≡ stopped
    → Less w (moved i n o w)
moved-Less i n none w e h = (h, omega arith)
moved-Less i n (some st) w e h =
    let (rests, brings) = advance-Brings n st w.pool h in
    (
      rests,
      omega (arith, brings, total-modify_at will_add i (λ _. (advance n st w.pool).0) st w.calls e),
    )

none_begun : (c : Call) → will_add (first_stage c) ≡ 0
unfolding first_stage
none_begun start = refl
none_begun reload_config = refl
none_begun (add_task b p) = refl
none_begun stop = refl

step-Less : (s : Step) (w : Shared) → w.pool.state ≡ stopped → Less w (step s w)
unfolding step
step-Less (begins c) w h =
    (h, omega (arith, none_begun c, total-append will_add w.calls (first_stage c ∷ [])))
step-Less (moves i n) w h = moved-Less i n (get_elem? w.calls i) w refl h
step-Less actor_ends w h = (h, omega arith)

-- A stopped pool stays stopped over any steps of any calls, also new ones. The tasks that it has sent
-- and those of calls that are past their look at the state never get more: so only calls that had
-- looked before the stop can send a task after it, each one at most.
pub run_stopped :
    (ss : List Step) (w : Shared)
    → w.pool.state ≡ stopped
    → ((run ss w).pool.state ≡ stopped)
      × (tasks (run ss w).pool.sent + total will_add (run ss w).calls
          ≤ tasks w.pool.sent + total will_add w.calls)
unfolding run
run_stopped [] w h = (h, omega arith)
run_stopped (s ∷ ss) w h =
    let (h', one) = step-Less s w h in
    let (h'', more) = run_stopped ss (step s w) h' in (h'', omega (arith, one, more))
