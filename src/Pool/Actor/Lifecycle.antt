-- ===== src/Pool/Actor/Lifecycle.antt =====
-- The life of a pool, from its start to the end of its loop.
use rustservicelib.Base.{
  total, total-append, one_of, ◌++◌, ℕ, ◌+◌, List, [], Option, none, some, Bool, true, nat_eq,
  if◌then◌else◌, lookup, arith, ◌≡◌, refl, Bool-cases, Option-cases, inl, inr, not, sym, ◌∙◌, ◌>>=◌,
  ◌&&◌, ap,
}
use rustservicelib.Pool.Fifo.Tally.{task_test}
use rustservicelib.Pool.Pending
use rustservicelib.Pool.Pending.{PendingQueue}
use rustservicelib.Pool.Actor.Crew.{spawn-Spawned}
use rustservicelib.Pool.Actor.Invariant.{Inv, IsPossible, added, accepted_tasks, round-Inv}
use rustservicelib.Pool.Actor.{
  Actor, Event, Reply, add, init, round, is_done, handle, admit, schedule, settle, spawn,
}

init-Inv {ℓ} : (E : Type ℓ) (priority : Bool) (target : ℕ) → Inv (init {E = E} priority target)
unfolding init
init-Inv E priority target = record {
  queue_ok = (Pending.new-Ok E priority).0;
  crew = record {
    distinct = tt;
    known = tt;
    is_map = tt;
    counted = omega arith;
    below = λ w h. absurd (none_known w h);
  };
  stopped_started = λ h. cc;
  retired = λ h. cc;
}
  where
    none_known : (w : ℕ) → lookup w [] ≡ some (tt {0}) → ⊥
    none_known w h = unfold lookup in cc

module _ {ℓ} {E : Type ℓ} where
  -- The rounds of a pool: the tasks that it has accepted so far, and those that it has sent, with the
  -- executors that it sent them to.
  pub data Run (a : Actor E) : List E → List (ℕ × E) → Actor E → Type ℓ where
    here : Run a [] [] a
    next :
        {taken : List E} {gone : List (ℕ × E)} {b c : Actor E} {rs : List Reply}
        {sent : List (ℕ × E)}
        → Run a taken gone b
        → (ev : Event E) → IsPossible ev b
        → round ev b ≡ some (rs, sent, c)
        → Run a (taken ++ accepted_tasks ev rs) (gone ++ sent) c

  some_round : {x y : List Reply × List (ℕ × E) × Actor E} → some x ≡ some y → x ≡ y
  some_round e = cc

  Run-counts :
      {a b : Actor E} {taken : List E} {gone : List (ℕ × E)}
      → Inv a
      → Run a taken gone b
      → Inv b
        × ((t : E → Bool)
            → Pending.tally t b.queue + total (task_test t) gone
              ≡ Pending.tally t a.queue + total (one_of t) taken)
  Run-counts v here = (v, λ t. refl)
  Run-counts {a} v
        (next {taken = taken} {gone = gone} {b = b} {c = c} {rs = rs} {sent = sent} r ev h ran) =
      let (v', count) = Run-counts v r in
      let (rs', sent', c', ran', v'', count', _) = round-Inv ev b h v' in
      let same = some_round (sym ran' ∙ ran) in
      let rs_eq : rs' ≡ rs = ap (λ t. t.0) same in
      let sent_eq : sent' ≡ sent = ap (λ t. t.1) same in
      let c_eq : c' ≡ c = ap (λ t. t.2) same in
      (
        rw (← c_eq) v'',
        λ t. omega (
          arith,
          count t,
          count' t,
          total-append (task_test t) gone sent,
          total-append (one_of t) taken (accepted_tasks ev rs),
          ap (λ (l : List Reply). total (one_of t) (accepted_tasks ev l)) rs_eq,
          ap (total (task_test t)) sent_eq,
          ap (λ (d : Actor E). Pending.tally t d.queue) c_eq,
        ),
      )

  done_retiring : (a : Actor E) → is_done a ≡ true → a.retiring ≡ true
  unfolding is_done
  done_retiring a h = ground arith

  -- From its start, after any rounds on possible events, a pool is in order, and the tasks that it has
  -- accepted are, each as often, those that it has sent and those in its queue: as many of both pass
  -- any test.
  pub Run-conserves :
      (priority : Bool) (target : ℕ) (taken : List E) (gone : List (ℕ × E)) (b : Actor E)
      → Run (init priority target) taken gone b
      → Inv b
        × ((t : E → Bool)
            → Pending.tally t b.queue + total (task_test t) gone ≡ total (one_of t) taken)
  Run-conserves priority target taken gone b r =
      let (v, count) = Run-counts (init-Inv E priority target) r in
      (v, λ t. omega (arith, count t, empty t))
    where
      empty : (t : E → Bool) → Pending.tally t (init {E = E} priority target).queue ≡ 0
      empty t = unfold init in Pending.tally_empty t _ (Pending.new-Ok E priority).1

  -- From its start, after any rounds on possible events, a pool whose loop ends has sent every task
  -- that it accepted, each as often as it accepted it, and nothing else: as many of both pass any
  -- test. No executor is busy.
  pub Run-done :
      (priority : Bool) (target : ℕ) (taken : List E) (gone : List (ℕ × E)) (b : Actor E)
      → Run (init priority target) taken gone b
      → is_done b ≡ true
      → ((t : E → Bool) → total (task_test t) gone ≡ total (one_of t) taken) × (b.busy ≡ 0)
  Run-done priority target taken gone b r h =
      let (v, count) = Run-conserves priority target taken gone b r in
      let (_, empty, none_busy) = v.retired (done_retiring b h) in
      (λ t. omega (arith, count t, Pending.tally_empty t b.queue empty), none_busy)

  handle_stopped :
      (ev : Event E) (a b : Actor E) (rs : List Reply)
      → a.stopped ≡ true
      → handle ev a ≡ some (rs, b)
      → (added rs ≡ 0) × (b.stopped ≡ true)
  unfolding handle admit
  handle_stopped (Event.cancelled id) a b rs s h = ground arith
  handle_stopped (add c p e) a b rs s h = ground arith
  handle_stopped (Event.start n) a b rs s h = ground arith
  handle_stopped (Event.resize n) a b rs s h = ground arith
  handle_stopped Event.stop a b rs s h = ground arith
  handle_stopped (Event.ready w) a b rs s h = ground arith
  handle_stopped Event.closed a b rs s h = ground arith
  handle_stopped Event.joined a b rs s h = ground arith

  sent_stopped :
      (o : Option (List (ℕ × E) × List ℕ × ℕ × PendingQueue E)) (b c : Actor E)
      (sent : List (ℕ × E))
      → ◌>>=◌ {B = List (ℕ × E) × Actor E} o
          (λ r. some (r.0, record b { idle = r.1; busy = r.2; queue = r.3 }))
        ≡ some (sent, c)
      → c.stopped ≡ b.stopped
  sent_stopped none b c sent h = cc
  sent_stopped (some r) b c sent h = ground arith

  schedule_stopped :
      (a b : Actor E) (sent : List (ℕ × E)) → schedule a ≡ some (sent, b) → b.stopped ≡ a.stopped
  unfolding schedule
  schedule_stopped a b sent h =
      sent_stopped _ (spawn a.target _) b sent h ∙ (spawn-Spawned a.target _).same_stopped

  settle_stopped : (a : Actor E) → (settle a).stopped ≡ a.stopped
  unfolding settle
  settle_stopped a = ground arith

  round_parts :
      (h : Option (List Reply × Actor E)) (c : Actor E) (rs : List Reply) (sent : List (ℕ × E))
      → ◌>>=◌ {B = List Reply × List (ℕ × E) × Actor E} h (λ x.
        ◌>>=◌ {B = List Reply × List (ℕ × E) × Actor E}
          (if x.1.started && not x.1.retiring then schedule x.1 else some ([], x.1))
          (λ s. some (x.0, s.0, settle s.1)))
        ≡ some (rs, sent, c)
      → (b : Actor E) × (h ≡ some (rs, b)) × (c.stopped ≡ b.stopped)
  round_parts none c rs sent e = cc
  round_parts (some (rs', b)) c rs sent e = elim (Bool-cases (b.started && not b.retiring)) [
    | inl on ↦ elim (Option-cases (schedule b)) [
      | inl stuck ↦ absurd (ground arith)
      | inr ((sent', b'), ran) ↦
          (b, ground arith, ground (arith, settle_stopped b', schedule_stopped b b' sent' ran))
    ]
    | inr off ↦ (b, ground arith, ground (arith, settle_stopped b))
  ]

  -- A stopped pool accepts no task in any later round, and stays stopped.
  pub round_stopped :
      (ev : Event E) (a b : Actor E) (rs : List Reply) (sent : List (ℕ × E))
      → a.stopped ≡ true
      → round ev a ≡ some (rs, sent, b)
      → (added rs ≡ 0) × (b.stopped ≡ true)
  unfolding round
  round_stopped ev a b rs sent s h =
      let (b', ran, same) = round_parts (handle ev a) b rs sent h in
      let (none_added, s') = handle_stopped ev a b' rs s ran in (none_added, same ∙ s')
