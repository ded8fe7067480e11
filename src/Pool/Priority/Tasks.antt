-- ===== src/Pool/Priority/Tasks.antt =====
-- What `pop` and `promote` do to the tasks of a priority queue.
use rustservicelib.Base.{
  ℕ, List, [], ◌∷◌, Option, none, some, true, false, ◌==◌, nat_eq, if◌then◌else◌, lookup, insert,
  remove, ◌≡◌, refl, sym, ◌∙◌, lookup-remove, Bool-cases, inl, inr, lookup-insert_self,
  lookup-insert_ne, lookup-remove_ne, Option-cases, ◌⊎◌,
}
use rustservicelib.Pool.Priority.{
  Key, key_eq, key_lt, ordered_insert, Priority, pop, promote, i32_min,
}
use rustservicelib.Pool.Priority.Order.{lookup-ordered_insert, Above-lookup}
use rustservicelib.Pool.Priority.Invariant.{
  Inv, task, ne_key, pop_first_Inv, promote_found_Inv, rest_lookup,
}

module _ {ℓ} {E : Type ℓ} where
  -- Two queues in which an id has the same key, and that key the same payload.
  task_same :
      (j : ℕ) (q r : Priority E)
      → lookup j r.positions ≡ lookup j q.positions
      → ((k : Key) → lookup j q.positions ≡ some k → lookup k r.entries ≡ lookup k q.entries)
      → task j r ≡ task j q
  task_same j q r p h = elim (Option-cases (lookup j q.positions)) [
    | inl missing ↦ rw (p, missing) refl
    | inr (k, found) ↦ rw (p, found) (rw (h k found) refl)
  ]

  promote-task :
      (id : ℕ) (k : Key) (q : Priority E)
      → Inv q
      → lookup id q.positions ≡ some k
      → let key : Key = record { priority = i32_min; id = id } in
        (r : Priority E) × (e : E) × (promote id q ≡ some (true, r))
        × Inv r
        × (task id q ≡ some (k, e))
        × (task id r ≡ some (key, e))
        × ((j : ℕ) → (id == j) ≡ false → task j r ≡ task j q)
  unfolding promote
  promote-task id k q v at =
      let (same, (e, found)) = v.located id k at in
      let key : Key = record { priority = i32_min; id = k.id } in
      let r : Priority E = record {
        entries = ordered_insert key e (remove k q.entries);
        positions = insert id key q.positions;
      } in
      (
        r,
        e,
        rw at (rw found refl),
        promote_found_Inv id k e q v at found same,
        rw at (rw found refl),
        new_task id k.id e q.positions (remove k q.entries) same,
        λ j other. task_same j q r (lookup-insert_ne id j key q.positions other) λ k' at'.
            let j_eq = (v.located j k' at').0 in
            lookup-ordered_insert key k' e (remove k q.entries)
            ∙ rw (ne_key key k' (rw (same, j_eq) other))
                (lookup-remove_ne k k' q.entries (ne_key k k' (rw (same, j_eq) other))),
      )
    where
      new_task :
          (i i' : ℕ) (e : E) (ps : List (ℕ × Key)) (m : List (Key × E))
          → i' ≡ i
          → task i (record {
            entries = ordered_insert (record { priority = i32_min; id = i' }) e m;
            positions = insert i (record { priority = i32_min; id = i' }) ps;
          })
            ≡ some (record { priority = i32_min; id = i }, e)
      new_task i i' e ps m same = rw same (
          rw (lookup-insert_self i (record { priority = i32_min; id = i }) ps) (
            rw
              (lookup-ordered_insert (record { priority = i32_min; id = i })
                (record { priority = i32_min; id = i }) e m)
              (rw
                ((key_eq.beq_iff (record { priority = i32_min; id = i })
                    (record { priority = i32_min; id = i })).1
                  refl)
                refl)))

  -- In a queue that is in order, the promotion of a queued task never panics and keeps the order. The
  -- task gets the least priority value and keeps its payload; every other task keeps both.
  pub promote_first :
      (id : ℕ) (k : Key) (q : Priority E)
      → Inv q
      → lookup id q.positions ≡ some k
      → let key : Key = record { priority = i32_min; id = id } in
        (r : Priority E) × (e : E) × (promote id q ≡ some (true, r))
        × Inv r
        × (task id q ≡ some (k, e))
        × ((j : ℕ) → task j r ≡ (if id == j then some (key, e) else task j q))
  promote_first id k q v at =
      let (r, e, ran, v', before, after, others) = promote-task id k q v at in
      (
        r,
        e,
        ran,
        v',
        before,
        λ j. elim (Bool-cases (id == j)) [
          | inl same ↦
              let same' : id ≡ j = (nat_eq.beq_iff id j).0 same in rw same (rw (← same') after)
          | inr other ↦ rw other (others j other)
        ],
      )

  -- A pop that finds a task: it has the least key of all, it leaves, and the others stay.
  pub record Popped (q r : Priority E) (k : Key) (e : E) : Type ℓ where
    pub queued : task k.id q ≡ some (k, e)
    pub least :
        (j : ℕ) (k' : Key) (e' : E)
        → task j q ≡ some (k', e')
        → (k.id == j) ≡ false
        → key_lt k k' ≡ true
    pub others : (j : ℕ) → task j r ≡ (if k.id == j then none else task j q)
    pub keeps : Inv r

  task_at :
      (j : ℕ) (q : Priority E) (k : Key) (e : E)
      → task j q ≡ some (k, e)
      → (lookup j q.positions ≡ some k) × (lookup k q.entries ≡ some e)
  task_at j q k e h = elim (Option-cases (lookup j q.positions)) [
    | inl missing ↦ absurd (no_task (sym (rw missing refl) ∙ h))
    | inr (k', found) ↦ elim (Option-cases (lookup k' q.entries)) [
      | inl missing ↦ absurd (no_task (sym (rw found (rw missing refl)) ∙ h))
      | inr (e', found') ↦
          let ran : ◌≡◌ {A = Option (Key × E)} (task j q) (some (k', e')) =
            rw found (rw found' refl) in
          let same : ◌≡◌ {A = Option (Key × E)} (some (k', e')) (some (k, e)) = sym ran ∙ h in
          let k_eq : k' ≡ k = cc in
          let e_eq : e' ≡ e = cc in
          (rw found (rw k_eq refl), rw (← k_eq) (rw found' (rw e_eq refl)))
    ]
  ]
    where
      no_task : ◌≡◌ {A = Option (Key × E)} none (some (k, e)) → ⊥
      no_task h = cc

  pop_first_Popped :
      (k : Key) (e : E) (m : List (Key × E)) (ps : List (ℕ × Key))
      → Inv (record { entries = (k, e) ∷ m; positions = ps })
      → Popped
          (record { entries = (k, e) ∷ m; positions = ps })
          (record { entries = m; positions = remove k.id ps })
          k
          e
  pop_first_Popped k e m ps v =
      let q : Priority E = record { entries = (k, e) ∷ m; positions = ps } in
      let r : Priority E = record { entries = m; positions = remove k.id ps } in
      let found : lookup k q.entries ≡ some e = first_found in
      record {
        queued = rw (v.indexed k e found) (rw found refl);
        least = λ j k' e' t other.
            let (at, found') = task_at j q k' e' t in
            Above-lookup k k' e' m v.ordered.0 (
              rest_lookup k k' e m v.ordered.0
              ∙ rw (ne_key k k' (rw ((v.located j k' at).0) other)) found');
        others = λ j. elim (Bool-cases (k.id == j)) [
          | inl same ↦ rw (lookup-remove k.id j ps) (rw same refl)
          | inr other ↦ rw other (
              task_same j q r (lookup-remove_ne k.id j ps other) λ k' at.
                rest_lookup k k' e m v.ordered.0
                ∙ rw (ne_key k k' (rw ((v.located j k' at).0) other)) refl)
        ];
        keeps = pop_first_Inv k e m ps v;
      }
    where
      first_found : lookup k ((k, e) ∷ m) ≡ some e
      first_found = unfold lookup in rw ((key_eq.beq_iff k k).1 refl)

  -- In a queue that is in order, a pop takes the task with the least key, or says `None` when no task is queued.
  pub pop_least :
      (q : Priority E)
      → Inv q
      → ((pop q).0 ≡ none) × ((j : ℕ) → task j q ≡ none)
        ⊎ ((k : Key) × (e : E) × ((pop q).0 ≡ some (k.id, e)) × Popped q (pop q).1 k e)
  unfolding pop
  pop_least q v = at_entries q.entries q.positions v
    where
      at_entries :
          (m : List (Key × E)) (ps : List (ℕ × Key))
          → Inv (record { entries = m; positions = ps })
          → let q' : Priority E = record { entries = m; positions = ps } in
            ((pop q').0 ≡ none) × ((j : ℕ) → task j q' ≡ none)
            ⊎ ((k : Key) × (e : E) × ((pop q').0 ≡ some (k.id, e)) × Popped q' (pop q').1 k e)
      at_entries [] ps v' = inl (
        refl,
        λ j. elim (Option-cases (lookup j ps)) [
          | inl missing ↦ rw missing refl
          | inr (k, at) ↦ rw at (unfold lookup in refl)
        ],
      )
      at_entries ((k, e) ∷ m) ps v' = inr (k, e, refl, pop_first_Popped k e m ps v')
