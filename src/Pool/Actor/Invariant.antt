-- ===== src/Pool/Actor/Invariant.antt =====
-- No round of the pool's loop panics, and every round keeps the queue, the executors and the flags
-- in order.
use rustservicelib.Base.{
  total, one_of, ℕ, zero, suc, ◌+◌, ◌≤◌, ◌<◌, List, [], ◌∷◌, ◌++◌, some, Bool, true, false, ◌==◌,
  nat_eq, ltb, length, lookup, arith, ◌≡◌, refl, sym, ◌∙◌, ◌⊎◌, inl, inr, Bool-cases, not, ◌&&◌, ap,
}
use rustservicelib.Base.Int.{ℤ}
use rustservicelib.Pool.Fifo.Tally.{task_test}
use rustservicelib.Pool.Pending
use rustservicelib.Pool.Pending.{PendingQueue}
use rustservicelib.Pool.Actor.Crew.{
  Crew, elem, busy_pos, release-Crew, retire-Crew, spawn-Crew, spawn-Spawned, dispatch-Crew,
}
use rustservicelib.Pool.Actor.{
  Actor, Event, Reply, cancelled, add, start, resize, stop, ready, closed, joined, accepted,
  resource_stopped, context_cancelled, admit, handle, retire, spawn, schedule, settle, round,
}

-- How many tasks the replies accept.
abbrev pub added : List Reply → ℕ
added [] = 0
added (accepted ∷ rs) = suc (added rs)
added (_ ∷ rs) = added rs

module _ {ℓ} {E : Type ℓ} where
  abbrev accepted_of : E → List Reply → List E
  accepted_of e [] = []
  accepted_of e (accepted ∷ rs) = e ∷ []
  accepted_of e (resource_stopped ∷ rs) = []
  accepted_of e (context_cancelled ∷ rs) = []

  -- The tasks that a caller handed in with an event and was told are accepted.
  abbrev pub accepted_tasks : Event E → List Reply → List E
  accepted_tasks (add c p e) rs = accepted_of e rs
  accepted_tasks (cancelled id) rs = []
  accepted_tasks (start n) rs = []
  accepted_tasks (resize n) rs = []
  accepted_tasks stop rs = []
  accepted_tasks (ready w) rs = []
  accepted_tasks closed rs = []
  accepted_tasks joined rs = []

length_zero : (xs : List ℕ) → length xs ≡ 0 → xs ≡ []
length_zero [] h = refl
length_zero (x ∷ xs) h = absurd (omega (arith, h))

cap_of :
    (target busy busy' : ℕ) (m : ℕ) (idle rest : List ℕ)
    → length idle + busy ≡ m
    → length rest + busy' ≡ m
    → busy ≤ busy'
    → (m ≤ target) ⊎ (idle ≡ [])
    → (m ≤ target) ⊎ (rest ≡ [])
cap_of target busy busy' m idle rest c c' le (inl h) = inl h
cap_of target busy busy' m idle rest c c' le (inr e) =
    inr (length_zero rest (omega (arith, ap length e, c, c', le)))

module _ {ℓ} {E : Type ℓ} where
  pub record Inv (a : Actor E) : Type ℓ where
    pub queue_ok : Pending.Ok a.next_id a.queue
    pub crew : Crew a.idle a.executors a.busy a.next_worker
    pub stopped_started : a.stopped ≡ true → a.started ≡ true
    pub retired : a.retiring ≡ true → (a.stopped ≡ true) × (Pending.len a.queue ≡ 0) × (a.busy ≡ 0)

  -- Only a busy executor says that it is ready.
  abbrev pub IsPossible : Event E → Actor E → Type 0
  IsPossible (ready w) a = (lookup w a.executors ≡ some tt) × (elem w a.idle ≡ false)
  IsPossible ev a = Unit

  abbrev Handled : Event E → Actor E → Type ℓ
  Handled ev a =
      (rs : List Reply) × (b : Actor E) × (handle ev a ≡ some (rs, b))
      × Inv b
      × ((t : E → Bool)
          → Pending.tally t b.queue
            ≡ Pending.tally t a.queue + total (one_of t) (accepted_tasks ev rs))
      × (b.retiring ≡ a.retiring)

  add-Handled : (c : Bool) (p : ℤ) (e : E) (a : Actor E) → Inv a → Handled (add c p e) a
  unfolding handle admit
  add-Handled c p e a v = elim (Bool-cases a.stopped) [
    | inl over ↦ (resource_stopped ∷ [], a, rw over refl, v, λ t. omega arith, refl)
    | inr going ↦ elim (Bool-cases c) [
      | inl gone ↦ (context_cancelled ∷ [], a, rw (going, gone) refl, v, λ t. omega arith, refl)
      | inr live ↦
          let (q, ran, ok, grown) = Pending.push-Ok a.next_id p e a.queue v.queue_ok in
          let not_retiring : a.retiring ≡ true → ⊥ = λ r. clash (sym going ∙ (v.retired r).0) in
          (
            accepted ∷ [],
            record a { queue = q; next_id = suc a.next_id },
            rw (going, live) (rw ran refl),
            record {
              queue_ok = ok;
              crew = v.crew;
              stopped_started = v.stopped_started;
              retired = λ r. absurd (not_retiring r);
            },
            λ t. omega (arith, grown t),
            refl,
          )
    ]
  ]
    where
      clash : false ≡ true → ⊥
      clash h = cc

  ready-Handled : (w : ℕ) (a : Actor E) → IsPossible (ready w) a → Inv a → Handled (ready w) a
  unfolding handle
  ready-Handled w a h v = with_busy a.busy refl
    where
      with_busy : (n : ℕ) → a.busy ≡ n → Handled (ready w) a
      with_busy zero e =
          absurd
            (omega (arith, e, busy_pos w a.idle a.executors a.busy a.next_worker v.crew h.0 h.1))
      with_busy (suc n) e = (
        [],
        record a { busy = n; idle = a.idle ++ w ∷ [] },
        rw e refl,
        record {
          queue_ok = v.queue_ok;
          crew = release-Crew w a.idle a.executors n a.next_worker (rw (← e) v.crew) h.0 h.1;
          stopped_started = v.stopped_started;
          retired = λ r. absurd (omega (arith, (v.retired r).2, e));
        },
        λ t. omega arith,
        refl,
      )

  handle-Inv : (ev : Event E) (a : Actor E) → IsPossible ev a → Inv a → Handled ev a
  unfolding handle
  handle-Inv (cancelled id) a h v =
      let (b, r, ran, ok, len_r, kept) = Pending.promote-Ok a.next_id id a.queue v.queue_ok in
      (
        [],
        record a { queue = r },
        rw ran refl,
        record {
          queue_ok = ok;
          crew = v.crew;
          stopped_started = v.stopped_started;
          retired = λ t. ((v.retired t).0, len_r ∙ (v.retired t).1, (v.retired t).2);
        },
        λ t. omega (arith, kept t),
        refl,
      )
  handle-Inv (add c p e) a h v = add-Handled c p e a v
  handle-Inv (start n) a h v = elim (Bool-cases a.stopped) [
    | inl over ↦ ([], a, rw over refl, v, λ t. omega arith, refl)
    | inr going ↦ (
      [],
      record a { started = true; target = n },
      rw going refl,
      record {
        queue_ok = v.queue_ok;
        crew = v.crew;
        stopped_started = λ _. refl;
        retired = v.retired;
      },
      λ t. omega arith,
      refl,
    )
  ]
  handle-Inv (resize n) a h v = elim (Bool-cases a.stopped) [
    | inl over ↦ ([], a, rw over refl, v, λ t. omega arith, refl)
    | inr going ↦ (
      [],
      record a { target = n },
      rw going refl,
      record {
        queue_ok = v.queue_ok;
        crew = v.crew;
        stopped_started = v.stopped_started;
        retired = v.retired;
      },
      λ t. omega arith,
      refl,
    )
  ]
  handle-Inv stop a h v = (
    [],
    _,
    refl,
    record {
      queue_ok = v.queue_ok;
      crew = v.crew;
      stopped_started = λ _. refl;
      retired = λ t. (refl, (v.retired t).1, (v.retired t).2);
    },
    λ t. omega arith,
    refl,
  )
  handle-Inv (ready w) a h v = ready-Handled w a h v
  handle-Inv closed a h v = (
    [],
    _,
    refl,
    record {
      queue_ok = v.queue_ok;
      crew = v.crew;
      stopped_started = λ _. refl;
      retired = λ t. (refl, (v.retired t).1, (v.retired t).2);
    },
    λ t. omega arith,
    refl,
  )
  handle-Inv joined a h v = (
    [],
    _,
    refl,
    record {
      queue_ok = v.queue_ok;
      crew = v.crew;
      stopped_started = v.stopped_started;
      retired = v.retired;
    },
    λ t. omega arith,
    refl,
  )

  -- After its scheduling a pool has as many executors as it is to have, or more that are all busy;
  -- and no task waits while an executor is idle.
  pub record IsScheduled (a : Actor E) : Type ℓ where
    pub enough : a.target ≤ length a.executors
    pub excess_busy : (length a.executors ≤ a.target) ⊎ (a.idle ≡ [])
    pub no_wait : (a.idle ≡ []) ⊎ (Pending.len a.queue ≡ 0)

  spawn_cap :
      (a b : Actor E)
      → (length a.executors ≤ a.target) ⊎ (a.idle ≡ [])
      → (length b.executors ≤ a.target) ⊎ (b.executors ≡ a.executors)
      → ((a.target ≤ length a.executors) → b.idle ≡ a.idle)
      → (length b.executors ≤ a.target) ⊎ (b.idle ≡ [])
  spawn_cap a b h (inl le) keep = inl le
  spawn_cap a b (inl le) (inr e) keep = inl (omega (arith, ap length e, le))
  spawn_cap a b (inr none_idle) (inr e) keep =
      elim (Bool-cases (ltb (length a.executors) a.target)) [
        | inl less ↦
            let less' : length a.executors < a.target = ground arith in
            inl (omega (arith, ap length e, less'))
        | inr more ↦
            let more' : a.target ≤ length a.executors = ground arith in inr (keep more' ∙ none_idle)
      ]

  schedule-Inv :
      (a : Actor E)
      → Inv a
      → a.retiring ≡ false
      → (sent : List (ℕ × E)) × (b : Actor E) × (schedule a ≡ some (sent, b))
        × Inv b
        × ((t : E → Bool)
            → Pending.tally t b.queue + total (task_test t) sent ≡ Pending.tally t a.queue)
        × (b.retiring ≡ false)
        × IsScheduled b
  unfolding schedule
  schedule-Inv a v going =
      let left = retire a.target a.idle a.executors in
      let (crew, fit) = retire-Crew a.target a.idle a.executors a.busy a.next_worker v.crew in
      let a' : Actor E = record a { idle = left.0; executors = left.1 } in
      let b = spawn a.target a' in
      let same = spawn-Spawned a.target a' in
      let (crew', reach, cap, keep) = spawn-Crew a.target a' crew in
      let ok : Pending.Ok b.next_id b.queue = rw (same.same_next_id, same.same_queue) v.queue_ok in
      let (sent, rest, r, ran, crew'', ok', kept, done) =
        dispatch-Crew b.idle b.busy b.next_worker b.next_id b.executors b.queue crew' ok in
      let not_retiring : b.retiring ≡ false = same.same_retiring ∙ going in
      (
        sent,
        record b { idle = rest; busy = b.busy + length sent; queue = r },
        rw ran refl,
        record {
          queue_ok = ok';
          crew = crew'';
          stopped_started = λ h. same.same_started ∙ v.stopped_started (sym same.same_stopped ∙ h);
          retired = λ h. absurd (clash (sym not_retiring ∙ h));
        },
        λ t. kept t ∙ ap (Pending.tally t) same.same_queue,
        not_retiring,
        record {
          enough = rw same.same_target (reach (omega arith));
          excess_busy =
              cap_of b.target b.busy (b.busy + length sent) (length b.executors) b.idle rest
                crew'.counted crew''.counted (omega arith)
                (rw same.same_target (spawn_cap a' b fit cap keep));
          no_wait = done;
        },
      )
    where
      clash : false ≡ true → ⊥
      clash h = cc

  settle-Inv : (a : Actor E) → Inv a → Inv (settle a) × ((settle a).queue ≡ a.queue)
  unfolding settle
  settle-Inv a v =
      elim (Bool-cases
        (a.stopped && (Pending.len a.queue == 0) && (a.busy == 0) && not a.retiring)) [
          | inl over ↦
              let (s, l, b) = parts a over in
              rw over (
                record {
                  queue_ok = v.queue_ok;
                  crew = record {
                    distinct = tt;
                    known = tt;
                    is_map = tt;
                    counted = omega (arith, b);
                    below = λ w h. absurd (none_known w h);
                  };
                  stopped_started = v.stopped_started;
                  retired = λ _. (s, l, b);
                },
                refl,
              )
          | inr going ↦ rw going (v, refl)
        ]
    where
      parts :
          (a : Actor E)
          → (a.stopped && (Pending.len a.queue == 0) && (a.busy == 0) && not a.retiring) ≡ true
          → (a.stopped ≡ true) × (Pending.len a.queue ≡ 0) × (a.busy ≡ 0)
      parts a h = ground arith

      none_known : (w : ℕ) → lookup w [] ≡ some (tt {0}) → ⊥
      none_known w h = unfold lookup in cc

  settle-IsScheduled :
      (a : Actor E) → IsScheduled a → (settle a).retiring ≡ false → IsScheduled (settle a)
  unfolding settle
  settle-IsScheduled a h r =
      elim (Bool-cases
        (a.stopped && (Pending.len a.queue == 0) && (a.busy == 0) && not a.retiring)) [
          | inl over ↦ absurd (clash (sym (rw over at r)))
          | inr going ↦ rw going h
        ]
    where
      clash : false ≡ true → ⊥
      clash h = cc

  settle_flags :
      (a : Actor E)
      → ((settle a).started ≡ a.started) × ((settle a).retiring ≡ false → a.retiring ≡ false)
  unfolding settle
  settle_flags a =
      elim (Bool-cases
        (a.stopped && (Pending.len a.queue == 0) && (a.busy == 0) && not a.retiring)) [
          | inl over ↦ rw over (refl, λ h. cc)
          | inr going ↦ rw going (refl, λ h. h)
        ]

  round_keeps :
      (ev : Event E) (a : Actor E)
      → IsPossible ev a
      → Inv a
      → (rs : List Reply) × (sent : List (ℕ × E)) × (b : Actor E) × (round ev a
          ≡ some (rs, sent, b))
        × Inv b
        × ((t : E → Bool)
            → Pending.tally t b.queue + total (task_test t) sent
              ≡ Pending.tally t a.queue + total (one_of t) (accepted_tasks ev rs))
        × (b.started ≡ true → b.retiring ≡ false → IsScheduled b)
  unfolding round
  round_keeps ev a h v =
      let (rs, b, ran, v', grown, same) = handle-Inv ev a h v in
      elim (Bool-cases (b.started && not b.retiring)) [
        | inl active ↦
            let going : b.retiring ≡ false = ground arith in
            let (sent, c, ran', v'', fewer, _, sched) = schedule-Inv b v' going in
            let (v3, same_queue) = settle-Inv c v'' in
            (
              rs,
              sent,
              settle c,
              rw ran (rw active (rw ran' refl)),
              v3,
              λ t. omega (arith, grown t, fewer t, ap (Pending.tally t) same_queue),
              λ on going'. settle-IsScheduled c sched going',
            )
        | inr passive ↦
            let (v3, same_queue) = settle-Inv b v' in
            (
              rs,
              [],
              settle b,
              rw ran (rw passive refl),
              v3,
              λ t. omega (arith, grown t, ap (Pending.tally t) same_queue),
              λ on going'. absurd (
                  no_round b.started b.retiring passive (sym (settle_flags b).0 ∙ on)
                    ((settle_flags b).1 going')),
            )
      ]
    where
      no_round : (s r : Bool) → (s && not r) ≡ false → s ≡ true → r ≡ false → ⊥
      no_round s r h h' h'' = ground arith

  -- In a pool that is in order, a possible event never makes a round panic, and the round keeps the
  -- pool in order. The tasks in the queue before it and those that it accepts are, each as often,
  -- those that it sends and those that stay: as many of both pass any test. After it the pool is not started, or retiring, or it has at least its target
  -- of executors, none idles if there are more, and none idles while a task waits.
  pub round-Inv :
      (ev : Event E) (a : Actor E)
      → IsPossible ev a
      → Inv a
      → (rs : List Reply) × (sent : List (ℕ × E)) × (b : Actor E) × (round ev a
          ≡ some (rs, sent, b))
        × Inv b
        × ((t : E → Bool)
            → Pending.tally t b.queue + total (task_test t) sent
              ≡ Pending.tally t a.queue + total (one_of t) (accepted_tasks ev rs))
        × ((b.started ≡ false) ⊎ ((b.retiring ≡ true) ⊎ IsScheduled b))
  round-Inv ev a h v =
      let (rs, sent, b, ran, v', count, sched) = round_keeps ev a h v in
      (
        rs,
        sent,
        b,
        ran,
        v',
        count,
        elim (Bool-cases b.started) [
          | inr off ↦ inl off
          | inl on ↦ elim (Bool-cases b.retiring) [
            | inl going ↦ inr (inl going)
            | inr kept ↦ inr (inr (sched on kept))
          ]
        ],
      )
