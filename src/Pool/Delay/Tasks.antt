-- ===== src/Pool/Delay/Tasks.antt =====
-- The tasks of the pool in src/runtime/pool/delaypool.rs: none is lost, and a stopped pool takes none.
use rustservicelib.Base.{
  ◌<◌, ◌++◌, All, total, total-append, one_of, some_eq, sym, subst, ℕ, suc, ◌+◌, ◌≤◌, List, [], ◌∷◌,
  Option, none, some, Bool, true, false, ◌==◌, nat_eq, length, arith, ◌≡◌, refl, ◌∙◌, inl, inr,
  Bool-cases, Option-cases, ap,
}
use rustservicelib.Pool.Delay.{
  ScheduledDelay, DelayPool, Step, delays, executes, stops, schedule_at, checked_add, admit,
  accepted_task, take_task, delay, execute, stop, step, steps,
}

-- The newest task stands first, so the ids go down, and no two are the same.
abbrev pub Below : ℕ → List ScheduledDelay → Type 0
Below n [] = Unit
Below n (s ∷ ss) = (s.id < n) × Below s.id ss

-- The pool counts its tasks, and their ids differ and were given out.
abbrev pub Inv : DelayPool → Type 0
Inv p = (p.active_tasks ≡ length p.tasks) × Below p.next_task p.tasks

Below-weaken : (n m : ℕ) (ss : List ScheduledDelay) → n ≤ m → Below n ss → Below m ss
Below-weaken n m [] le h = tt
Below-weaken n m (s ∷ ss) le h = (omega (arith, le, h.0), h.1)

-- What a task is, in a list where it is found: it has the id, and the others keep their order.
abbrev Taken : ℕ → List ScheduledDelay → ScheduledDelay → List ScheduledDelay → Type 0
Taken i ss s rest =
    (i ≡ s.id)
    × (length ss ≡ suc (length rest))
    × ((n : ℕ) → Below n ss → Below n rest)
    × ((t : ScheduledDelay → Bool) → total (one_of t) ss ≡ one_of t s + total (one_of t) rest)

Taken-skip :
    (i : ℕ) (s u : ScheduledDelay) (ss rest : List ScheduledDelay)
    → Taken i ss s rest
    → Taken i (u ∷ ss) s (u ∷ rest)
Taken-skip i s u ss rest (id, l, below, count) =
    (id, ap suc l, λ n h. (h.0, below u.id h.1), λ t. omega (arith, count t))

take_task-Taken :
    (i : ℕ) (ss rest : List ScheduledDelay) (s : ScheduledDelay)
    → take_task i ss ≡ some (s, rest)
    → Taken i ss s rest
unfolding take_task
take_task-Taken i [] rest s h = cc
take_task-Taken i (u ∷ ss) rest s h = elim (Bool-cases (u.id == i)) [
  | inl found ↦
      let here : ◌≡◌ {A = ScheduledDelay × List ScheduledDelay} (u, ss) (s, rest) =
        some_eq (sym (rw found refl) ∙ h) in
      subst (λ (r : ScheduledDelay × List ScheduledDelay). Taken i (u ∷ ss) r.0 r.1) here
        (
          sym ((nat_eq.beq_iff u.id i).0 found),
          refl,
          λ n b. Below-weaken u.id n ss (omega (arith, b.0)) b.1,
          λ t. refl,
        )
  | inr other ↦ elim (Option-cases (take_task i ss)) [
    | inl missing ↦ absurd (ground arith)
    | inr (r, hit) ↦
        let there : ◌≡◌ {A = ScheduledDelay × List ScheduledDelay} (r.0, u ∷ r.1) (s, rest) =
          some_eq (sym (rw (other, hit) refl) ∙ h) in
        subst (λ (x : ScheduledDelay × List ScheduledDelay). Taken i (u ∷ ss) x.0 x.1) there
          (Taken-skip i r.0 u ss r.1 (take_task-Taken i ss r.1 r.0 hit))
  ]
]

-- The tasks before and those accepted are, each as often, those that ran and those left; and each
-- that ran has the id that was asked for.
abbrev pub Conserves :
    DelayPool → List ScheduledDelay × List (ℕ × ScheduledDelay) × DelayPool → Type 0
Conserves p r =
    Inv r.2
    × All (λ x. x.0 ≡ x.1.id) r.1
    × ((t : ScheduledDelay → Bool)
        → total (one_of t) p.tasks + total (one_of t) r.0
          ≡ total (one_of t) r.2.tasks + total (λ x. one_of t x.1) r.1)

delays-Conserves :
    (range now : ℕ) (cancelled : Bool) (deadline : Option ℕ) (duration : ℕ) (p : DelayPool)
    → Inv p
    → Conserves p (step (delays range now cancelled deadline duration) p)
unfolding step delay
delays-Conserves range now true deadline duration p v = (v, tt, λ t. refl)
delays-Conserves range now false deadline duration p (counted, below) =
    scheduled (schedule_at (checked_add range now duration) deadline)
  where
    scheduled :
        (o : Option (ℕ × Bool))
        → Conserves p (accepted_task (admit o p).0 o p.next_task, [], (admit o p).1)
    scheduled none = ((counted, below), tt, λ t. refl)
    scheduled (some at) = elim (Bool-cases p.stopped) [
      | inl over ↦ rw over ((counted, below), tt, λ t. refl)
      | inr going ↦ rw going ((ap suc counted, (omega arith, below)), tt, λ t. omega arith)
    ]

step-Conserves : (s : Step) (p : DelayPool) → Inv p → Conserves p (step s p)
unfolding step execute stop
step-Conserves (delays range now cancelled deadline duration) p v =
    unfold step execute stop in delays-Conserves range now cancelled deadline duration p v
step-Conserves (executes i) p (counted, below) = elim (Option-cases (take_task i p.tasks)) [
  | inl missing ↦ rw missing ((counted, below), tt, λ t. refl)
  | inr (r, hit) ↦
      let (id, l, less, count) = take_task-Taken i p.tasks r.1 r.0 hit in
      rw hit
        ((omega (arith, counted, l), less p.next_task below), (id, tt), λ t. omega (arith, count t))
]
step-Conserves stops p v = (v, tt, λ t. refl)

append-All :
    (xs ys : List (ℕ × ScheduledDelay))
    → All (λ x. x.0 ≡ x.1.id) xs
    → All (λ x. x.0 ≡ x.1.id) ys
    → All (λ x. x.0 ≡ x.1.id) (xs ++ ys)
append-All [] ys h k = k
append-All (x ∷ xs) ys h k = (h.0, append-All xs ys h.1 k)

-- Over any steps, a pool whose count is right and whose tasks have different ids stays so. The tasks
-- that were there and those that it accepts are, each as often, those that it runs and those that
-- are left: as many of both pass any test. Each that it runs has the id that was asked for.
pub steps_conserve :
    (ss : List Step) (p : DelayPool)
    → Inv p
    → Inv (steps ss p).2
      × All (λ x. x.0 ≡ x.1.id) (steps ss p).1
      × ((t : ScheduledDelay → Bool)
          → total (one_of t) p.tasks + total (one_of t) (steps ss p).0
            ≡ total (one_of t) (steps ss p).2.tasks + total (λ x. one_of t x.1) (steps ss p).1)
unfolding steps
steps_conserve [] p v = (v, tt, λ t. refl)
steps_conserve (s ∷ ss) p v =
    let (v', ids, one) = step-Conserves s p v in
    let (v'', ids', more) = steps_conserve ss (step s p).2 v' in
    (
      v'',
      append-All _ _ ids ids',
      λ t. omega (
        arith,
        one t,
        more t,
        total-append (one_of t) (step s p).0 (steps ss (step s p).2).0,
        total-append (λ x. one_of t x.1) (step s p).1 (steps ss (step s p).2).1,
      ),
    )

step_stopped :
    (s : Step) (p : DelayPool)
    → p.stopped ≡ true
    → ((step s p).0 ≡ []) × ((step s p).2.stopped ≡ true)
unfolding step delay execute stop
step_stopped (delays range now cancelled deadline duration) p h = ground arith
step_stopped (executes i) p h = elim (Option-cases (take_task i p.tasks)) [
  | inl missing ↦ rw missing (refl, h)
  | inr (r, hit) ↦ rw hit (refl, h)
]
step_stopped stops p h = (refl, refl)

-- A stopped pool accepts no task in any later steps.
pub steps_stopped :
    (ss : List Step) (p : DelayPool)
    → p.stopped ≡ true
    → ((steps ss p).0 ≡ []) × ((steps ss p).2.stopped ≡ true)
unfolding steps
steps_stopped [] p h = (refl, h)
steps_stopped (s ∷ ss) p h =
    let (none_here, h') = step_stopped s p h in
    let (none_later, h'') = steps_stopped ss (step s p).2 h' in
    (rw (none_here, none_later) refl, h'')
