-- ===== src/Pool/Pending.antt =====
-- src/runtime/pool/queuedpool.rs, `PendingQueue`: one interface over the two queues, and the laws
-- of it that the actor needs.
use rustservicelib.Base.{
  ap, total, total-append, one_of, ℕ, suc, ◌+◌, ◌<◌, List, [], ◌∷◌, ◌++◌, Option, none, some, Bool,
  true, false, ◌==◌, nat_eq, arith, ◌≡◌, refl, sym, ◌∙◌, ◌>>=◌, All, length, lookup, lookup-insert,
  Bool-cases, Option-cases, inl, inr, length-remove_found, subst, insert, remove, lookup-remove,
}
use rustservicelib.Base.Int.{ℤ}
use rustservicelib.Pool.Fifo
use rustservicelib.Pool.Fifo.{Fifo}
use rustservicelib.Pool.Fifo.Links.{mem}
use rustservicelib.Pool.Fifo.Refine.{Represents, new-Represents, push-Represents, pop-Represents}
use rustservicelib.Pool.Fifo.Reference.{promote_refines, list_promote, list_promote_keeps}
use rustservicelib.Pool.Fifo.Tally.{
  node_test, task_test, total-remove_found, Represents-total, list_promote-total,
}
use rustservicelib.Pool.Priority
use rustservicelib.Pool.Priority.Order.{
  length-ordered_insert_new, ordered_insert_new-total, IsOrdered-IsMap,
}
use rustservicelib.Pool.Priority.{Priority, Key, key_eq}
use rustservicelib.Pool.Priority.Invariant
use rustservicelib.Pool.Priority.Invariant.{Inv, push-Inv, pop_first_Inv, promote_found_Inv}

pub data PendingQueue {ℓ} (E : Type ℓ) : Type ℓ where
  fifo : Fifo E → PendingQueue E
  priority : Priority E → PendingQueue E

no_entries {ℓ} : {A : Type ℓ} (xs : List A) → length xs ≡ 0 → xs ≡ []
no_entries [] h = refl
no_entries (x ∷ xs) h = absurd (omega (arith, h))

module _ {ℓ} {E : Type ℓ} where
  -- `PendingQueue::new`.
  unfoldable pub new : Bool → PendingQueue E
  new true = priority Priority.new
  new false = fifo Fifo.new

  unfoldable pub len : PendingQueue E → ℕ
  len (fifo q) = Fifo.len q
  len (priority q) = Priority.len q

  unfoldable pub push : ℕ → ℤ → E → PendingQueue E → Option (PendingQueue E)
  push id p e (fifo q) = Fifo.push id e q >>= λ r. some (fifo r)
  push id p e (priority q) = some (priority (Priority.push id p e q))

  unfoldable pub pop : PendingQueue E → Option (Option (ℕ × E) × PendingQueue E)
  pop (fifo q) = Fifo.pop q >>= λ r. some (r.0, fifo r.1)
  pop (priority q) = let r = Priority.pop q in some (r.0, priority r.1)

  unfoldable pub promote : ℕ → PendingQueue E → Option (Bool × PendingQueue E)
  promote id (fifo q) = Fifo.promote id q >>= λ r. some (r.0, fifo r.1)
  promote id (priority q) = Priority.promote id q >>= λ r. some (r.0, priority r.1)

  -- The queue is in order, and holds tasks with ids below `n` only.
  abbrev pub Ok : ℕ → PendingQueue E → Type ℓ
  Ok n (fifo q) = (xs : List (ℕ × E)) × Represents q xs × All (λ x. x.0 < n) xs
  Ok n (priority q) = Inv q × ((id : ℕ) (k : Key) → lookup id q.positions ≡ some k → id < n)

  abbrev pub entry_test : (E → Bool) → Key × E → ℕ
  entry_test v x = one_of v x.1

  -- How many of the queued tasks pass a test.
  abbrev pub tally : (E → Bool) → PendingQueue E → ℕ
  tally v (fifo q) = total (node_test v) q.entries
  tally v (priority q) = total (entry_test v) q.entries

  pub tally_empty : (v : E → Bool) (q : PendingQueue E) → len q ≡ 0 → tally v q ≡ 0
  unfolding len Fifo.len Priority.len
  tally_empty v (fifo q) h = ap (total (node_test v)) (no_entries q.entries h)
  tally_empty v (priority q) h = ap (total (entry_test v)) (no_entries q.entries h)

  below_missing : (n : ℕ) (xs : List (ℕ × E)) → All (λ x. x.0 < n) xs → mem n xs ≡ false
  below_missing n [] a = refl
  below_missing n ((j, f) ∷ xs) a = ground (arith, below_missing n xs a.1)

  below_more :
      (n : ℕ) (e : E) (xs : List (ℕ × E))
      → All (λ x. x.0 < n) xs
      → All (λ x. x.0 < suc n) (xs ++ (n, e) ∷ [])
  below_more n e [] a = (omega arith, tt)
  below_more n e ((j, f) ∷ xs) a = (omega (arith, a.0), below_more n e xs a.1)

  pub push-Ok :
      (n : ℕ) (p : ℤ) (e : E) (q : PendingQueue E)
      → Ok n q
      → (r : PendingQueue E) × (push n p e q ≡ some r)
        × Ok (suc n) r
        × ((v : E → Bool) → tally v r ≡ tally v q + one_of v e)
  unfolding push len Fifo.len Priority.len Priority.push
  push-Ok n p e (fifo q) (xs, rep, below) =
      let (r, ran, rep') = push-Represents n e q xs (below_missing n xs below) rep in
      (
        fifo r,
        rw ran refl,
        (xs ++ (n, e) ∷ [], rep', below_more n e xs below),
        λ v. omega (
          arith,
          Represents-total v r _ rep',
          Represents-total v q xs rep,
          total-append (task_test v) xs ((n, e) ∷ []),
        ),
      )
  push-Ok n p e (priority q) (v, below) =
      let key : Key = record { priority = p; id = n } in
      let missing : lookup n q.positions ≡ none = elim (Option-cases (lookup n q.positions)) [
        | inl m ↦ m
        | inr (k, found) ↦ absurd (omega (arith, below n k found))
      ] in
      let no_key : lookup key q.entries ≡ none = elim (Option-cases (lookup key q.entries)) [
        | inl m ↦ m
        | inr (e', found) ↦ absurd (clash (sym missing ∙ v.indexed key e' found))
      ] in
      (
        _,
        refl,
        (
          unfold Priority.push in push-Inv n p e q missing v,
          λ id k h. elim (Bool-cases (n == id)) [
            | inl same ↦ omega (arith, (nat_eq.beq_iff n id).0 same)
            | inr other ↦
                omega (arith, below id k (sym (lookup-insert n id key q.positions ∙ rw other) ∙ h))
          ],
        ),
        λ v. omega (arith, ordered_insert_new-total (entry_test v) key e q.entries no_key),
      )
    where
      clash : {k : Key} → none ≡ some k → ⊥
      clash h = cc

  pop_fifo :
      (n : ℕ) (q : Fifo E) (xs : List (ℕ × E))
      → Represents q xs
      → All (λ x. x.0 < n) xs
      → 0 < len (fifo q)
      → (id : ℕ) × (e : E) × (r : PendingQueue E) × (pop (fifo q) ≡ some (some (id, e), r))
        × Ok n r
        × ((v : E → Bool) → tally v r + one_of v e ≡ tally v (fifo q))
  unfolding pop len Fifo.len
  pop_fifo n q [] rep below h = absurd (omega (arith, rep.counted))
  pop_fifo n q ((i, e) ∷ xs) rep below h =
      let (r, ran, rep') = pop-Represents i e xs q rep in
      (
        i,
        e,
        fifo r,
        rw ran refl,
        (xs, rep', below.1),
        λ v. omega (arith, Represents-total v q _ rep, Represents-total v r xs rep'),
      )

  pop_priority :
      (n : ℕ) (m : List (Key × E)) (ps : List (ℕ × Key))
      → let q : Priority E = record { entries = m; positions = ps } in
        Inv q
        → ((id : ℕ) (k : Key) → lookup id ps ≡ some k → id < n)
        → 0 < len (priority q)
        → (id : ℕ) × (e : E) × (r : PendingQueue E) × (pop (priority q) ≡ some (some (id, e), r))
          × Ok n r
          × ((v : E → Bool) → tally v r + one_of v e ≡ tally v (priority q))
  unfolding pop len Priority.len Priority.pop
  pop_priority n [] ps v below h = absurd (omega (arith, h))
  pop_priority n ((k, e) ∷ m) ps v below h = (
    k.id,
    e,
    priority (record { entries = m; positions = remove k.id ps }),
    refl,
    (
      pop_first_Inv k e m ps v,
      λ id k' at. elim (Bool-cases (k.id == id)) [
        | inl same ↦ absurd (clash (sym (lookup-remove k.id id ps ∙ rw same) ∙ at))
        | inr other ↦ below id k' (sym (lookup-remove k.id id ps ∙ rw other) ∙ at)
      ],
    ),
    λ v. omega arith,
  )
    where
      clash : {k' : Key} → none ≡ some k' → ⊥
      clash e' = cc

  -- A queue that is not empty gives a task.
  pub pop-Ok :
      (n : ℕ) (q : PendingQueue E)
      → Ok n q
      → 0 < len q
      → (id : ℕ) × (e : E) × (r : PendingQueue E) × (pop q ≡ some (some (id, e), r))
        × Ok n r
        × ((v : E → Bool) → tally v r + one_of v e ≡ tally v q)
  pop-Ok n (fifo q) (xs, rep, below) h = pop_fifo n q xs rep below h
  pop-Ok n (priority q) (v, below) h = pop_priority n q.entries q.positions v below h

  promote_priority :
      (n id : ℕ) (q : Priority E) (k : Key)
      → Ok n (priority q)
      → lookup id q.positions ≡ some k
      → (b : Bool) × (r : PendingQueue E) × (promote id (priority q) ≡ some (b, r))
        × Ok n r
        × (len r ≡ len (priority q))
        × ((v : E → Bool) → tally v r ≡ tally v (priority q))
  unfolding promote len Priority.len Priority.promote
  promote_priority n id q k (v, below) at =
      let (same, (e, found)) = v.located id k at in
      let key : Key = record { priority = Priority.i32_min; id = k.id } in
      let put = promote_found_Inv id k e q v at found same in
      let no_key : lookup key (remove k q.entries) ≡ none =
        elim (Option-cases (lookup key (remove k q.entries))) [
          | inl m ↦ m
          | inr (e', hit) ↦ elim (Bool-cases (k == key)) [
            | inl eq ↦ lookup-remove k key q.entries ∙ rw eq
            | inr ne ↦
                let old = v.indexed key e' (sym (lookup-remove k key q.entries ∙ rw ne) ∙ hit) in
                absurd (
                  differ k key ne
                    (sym (subst (λ i. lookup i q.positions ≡ some k) (sym same) at) ∙ old))
          ]
        ] in
      (
        true,
        priority (record {
          entries = Priority.ordered_insert key e (remove k q.entries);
          positions = insert id key q.positions;
        }),
        rw at (rw found refl),
        (
          put,
          λ j k' h. elim (Bool-cases (id == j)) [
            | inl eq ↦ omega (arith, below id k at, (nat_eq.beq_iff id j).0 eq)
            | inr ne ↦ below j k' (sym (lookup-insert id j key q.positions ∙ rw ne) ∙ h)
          ],
        ),
        omega (
          arith,
          length-ordered_insert_new key e (remove k q.entries) no_key,
          length-remove_found k e q.entries (IsOrdered-IsMap q.entries v.ordered) found,
        ),
        λ t. omega (
          arith,
          ordered_insert_new-total (entry_test t) key e (remove k q.entries) no_key,
          total-remove_found (entry_test t) k e q.entries (IsOrdered-IsMap q.entries v.ordered)
              found,
        ),
      )
    where
      differ : (a b : Key) → (a == b) ≡ false → some a ≡ some b → ⊥
      differ a b ne eq = ground (arith, key_eq.beq_iff a b)

  -- A promotion keeps the number of tasks.
  pub promote-Ok :
      (n id : ℕ) (q : PendingQueue E)
      → Ok n q
      → (b : Bool) × (r : PendingQueue E) × (promote id q ≡ some (b, r))
        × Ok n r
        × (len r ≡ len q)
        × ((v : E → Bool) → tally v r ≡ tally v q)
  unfolding promote len Fifo.len Priority.len Priority.promote
  promote-Ok n id (fifo q) (xs, rep, below) =
      let (r, ran, rep') = promote_refines id xs q rep in
      let (below', same_len) = list_promote_keeps (λ x. x.0 < n) id xs below in
      (
        (list_promote id xs).0,
        fifo r,
        rw ran refl,
        ((list_promote id xs).1, rep', below'),
        omega (arith, rep.counted, rep'.counted, same_len),
        λ v. omega (
          arith,
          Represents-total v q xs rep,
          Represents-total v r _ rep',
          list_promote-total (task_test v) id xs,
        ),
      )
  promote-Ok n id (priority q) ok = elim (Option-cases (lookup id q.positions)) [
    | inl missing ↦ (false, priority q, rw missing refl, ok, refl, λ v. refl)
    | inr (k, at) ↦ promote_priority n id q k ok at
  ]

pub new-Ok {ℓ} : (E : Type ℓ) (b : Bool) → Ok 0 (new {E = E} b) × (len (new {E = E} b) ≡ 0)
unfolding new len Fifo.len Priority.len Fifo.new Priority.new
new-Ok E true = ((Invariant.new-Inv, λ id k h. absurd (not_in id k h)), refl)
  where
    not_in : (id : ℕ) (k : Key) → lookup id [] ≡ some k → ⊥
    not_in id k h = unfold lookup in cc
new-Ok E false = (([], new-Represents, tt), refl)
