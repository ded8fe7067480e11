-- ===== src/Pool/Fifo/Reference.antt =====
-- A reference FIFO queue, a list of tasks with the oldest first, and the refinement: any history of
-- calls that the pool's actor can make gives the same answers on both.
use rustservicelib.Base.{
  ℕ, suc, List, [], ◌∷◌, ◌++◌, Option, none, some, Bool, true, false, ◌==◌, nat_eq, arith, ◌≡◌,
  refl, if◌then◌else◌, Bool-cases, Option-cases, inl, inr, ◌>>=◌, subst, map_option, length, ap,
  All,
}
use rustservicelib.Pool.Fifo.{Fifo, push, pop, promote, new, len}
use rustservicelib.Pool.Fifo.Links.{mem}
use rustservicelib.Pool.Fifo.Refine.{
  Represents, new-Represents, push-Represents, pop-Represents, pop-Represents_empty,
}
use rustservicelib.Pool.Fifo.Promote.{
  promote-Represents, promote_head_unchanged, promote_missing_unchanged,
}

-- A call on the queue and its answer.
pub data Call {ℓ} (E : Type ℓ) : Type ℓ where
  pushes : ℕ → E → Call E
  pops : Call E
  promotes : ℕ → Call E

pub data Answer {ℓ} (E : Type ℓ) : Type ℓ where
  pushed : Answer E
  popped : Option (ℕ × E) → Answer E
  promoted : Bool → Answer E

module _ {ℓ} {E : Type ℓ} where
  unfoldable pub take_out : ℕ → List (ℕ × E) → Option (E × List (ℕ × E))
  take_out id [] = none
  take_out id ((j, f) ∷ xs) =
      let rest = take_out id xs in
      if j == id then some (f, xs) else map_option (λ r. (r.0, (j, f) ∷ r.1)) rest

  abbrev to_front : ℕ → List (ℕ × E) → Option (E × List (ℕ × E)) → Bool × List (ℕ × E)
  to_front id xs none = (false, xs)
  to_front id xs (some (e, rest)) = (true, (id, e) ∷ rest)

  -- The head is promoted already, and is not moved.
  unfoldable pub list_promote : ℕ → List (ℕ × E) → Bool × List (ℕ × E)
  list_promote id [] = (false, [])
  list_promote id ((j, f) ∷ xs) =
      if j == id
      then (false, (j, f) ∷ xs)
      else to_front id ((j, f) ∷ xs) (map_option (λ r. (r.0, (j, f) ∷ r.1)) (take_out id xs))

  abbrev list_pop : List (ℕ × E) → Answer E × List (ℕ × E)
  list_pop [] = (popped none, [])
  list_pop (x ∷ xs) = (popped (some x), xs)

  unfoldable pub list_step : Call E → List (ℕ × E) → Answer E × List (ℕ × E)
  list_step (pushes id e) xs = (pushed, xs ++ (id, e) ∷ [])
  list_step pops xs = list_pop xs
  list_step (promotes id) xs = let (b, ys) = list_promote id xs in (promoted b, ys)

  unfoldable pub step : Call E → Fifo E → Option (Answer E × Fifo E)
  step (pushes id e) q = push id e q >>= λ r. some (pushed, r)
  step pops q = pop q >>= λ r. some (popped r.0, r.1)
  step (promotes id) q = promote id q >>= λ r. some (promoted r.0, r.1)

  -- The actor numbers its tasks, so an id is pushed once.
  abbrev pub IsFresh : Call E → List (ℕ × E) → Type 0
  IsFresh (pushes id e) xs = mem id xs ≡ false
  IsFresh pops xs = Unit
  IsFresh (promotes id) xs = Unit

  take_out-none : (id : ℕ) (xs : List (ℕ × E)) → take_out id xs ≡ none → mem id xs ≡ false
  unfolding take_out
  take_out-none id [] h = refl
  take_out-none id ((j, f) ∷ xs) h = ground (arith, take_out-none id xs)

  take_out-some :
      (id : ℕ) (xs : List (ℕ × E)) (e : E) (rest : List (ℕ × E))
      → take_out id xs ≡ some (e, rest)
      → (ys zs : List (ℕ × E)) × (xs ≡ ys ++ (id, e) ∷ zs) × (rest ≡ ys ++ zs)
  unfolding take_out
  take_out-some id [] e rest h = cc
  take_out-some id ((j, f) ∷ xs) e rest h = elim (Bool-cases (j == id)) [
    | inl same ↦ ([], xs, ground (arith, nat_eq.beq_iff j id), ground arith)
    | inr other ↦ elim (Option-cases (take_out id xs)) [
      | inl missing ↦ absurd (ground arith)
      | inr (found, e') ↦
          let (ys, zs, p, q) = take_out-some id xs found.0 found.1 e' in
          ((j, f) ∷ ys, zs, ground arith, ground arith)
    ]
  ]

  take_out_keeps {κ} :
      (P : ℕ × E → Type κ) (id : ℕ) (xs : List (ℕ × E)) (e : E) (rest : List (ℕ × E))
      → take_out id xs ≡ some (e, rest)
      → All P xs
      → P (id, e) × All P rest × (length xs ≡ suc (length rest))
  unfolding take_out
  take_out_keeps P id [] e rest h a = cc
  take_out_keeps P id ((j, f) ∷ xs) e rest h a = elim (Bool-cases (j == id)) [
    | inl same ↦
        let e' : j ≡ id = (nat_eq.beq_iff j id).0 same in
        let t : ◌≡◌ {A = Option (E × List (ℕ × E))} (some (f, xs)) (some (e, rest)) =
          ground arith in
        let f_eq : f ≡ e = cc in
        let xs_eq : xs ≡ rest = cc in
        (rw (← e', ← f_eq) a.0, rw (← xs_eq) a.1, ap suc (ap length xs_eq))
    | inr other ↦ elim (Option-cases (take_out id xs)) [
      | inl missing ↦ absurd (ground arith)
      | inr (found, e') ↦
          let (p, ps, l) = take_out_keeps P id xs found.0 found.1 e' a.1 in
          let e_eq : found.0 ≡ e = ground arith in
          let rest_eq : (j, f) ∷ found.1 ≡ rest = ground arith in
          (rw (← e_eq) p, rw (← rest_eq) (a.0, ps), rw (← rest_eq) (omega (arith, l)))
    ]
  ]

  pub list_promote_keeps {κ} :
      (P : ℕ × E → Type κ) (id : ℕ) (xs : List (ℕ × E))
      → All P xs
      → All P (list_promote id xs).1 × (length (list_promote id xs).1 ≡ length xs)
  unfolding list_promote
  list_promote_keeps P id [] a = (a, refl)
  list_promote_keeps P id ((j, f) ∷ xs) a = elim (Bool-cases (j == id)) [
    | inl same ↦ rw same (a, refl)
    | inr other ↦ elim (Option-cases (take_out id xs)) [
      | inl missing ↦ rw (other, missing) (a, refl)
      | inr (found, e') ↦
          let (p, ps, l) = take_out_keeps P id xs found.0 found.1 e' a.1 in
          rw (other, e') ((p, (a.0, ps)), omega (arith, l))
    ]
  ]

  pub promote_refines :
      (id : ℕ) (xs : List (ℕ × E)) (q : Fifo E)
      → Represents q xs
      → (r : Fifo E) × (promote id q ≡ some ((list_promote id xs).0, r))
        × Represents r (list_promote id xs).1
  unfolding list_promote
  promote_refines id [] q h = (q, promote_missing_unchanged id [] q refl h, h)
  promote_refines id ((j, f) ∷ xs) q h = elim (Bool-cases (j == id)) [
    | inl same ↦
        let e' : j ≡ id = (nat_eq.beq_iff j id).0 same in
        (q, rw same (rw (← e') (promote_head_unchanged j f xs q h)), rw same h)
    | inr other ↦ elim (Option-cases (take_out id xs)) [
      | inl missing ↦ (
        q,
        rw (other, missing)
            (promote_missing_unchanged id ((j, f) ∷ xs) q (rw other (take_out-none id xs missing))
              h),
        rw (other, missing) h,
      )
      | inr (found, e') ↦
          let (ys, zs, p, p') = take_out-some id xs found.0 found.1 e' in
          let (r, ran, rep) =
            promote-Represents id j found.0 f ys zs q
              (subst (λ t. Represents q ((j, f) ∷ t)) p h) in
          (r, rw (other, e') ran, rw (other, e') (rw p' rep))
    ]
  ]

  -- One call on the linked queue answers as on the list, does not panic, and keeps the two together.
  pub step-Represents :
      (c : Call E) (xs : List (ℕ × E)) (q : Fifo E)
      → IsFresh c xs
      → Represents q xs
      → (r : Fifo E) × (step c q ≡ some ((list_step c xs).0, r)) × Represents r (list_step c xs).1
  unfolding step list_step
  step-Represents (pushes id e) xs q fresh h =
      let (r, ran, rep) = push-Represents id e q xs fresh h in (r, rw ran, rep)
  step-Represents pops [] q fresh h = (q, rw (pop-Represents_empty q h), h)
  step-Represents pops ((i, e) ∷ xs) q fresh h =
      let (r, ran, rep) = pop-Represents i e xs q h in (r, rw ran, rep)
  step-Represents (promotes id) xs q fresh h =
      let (r, ran, rep) = promote_refines id xs q h in (r, rw ran, rep)

  -- A history of calls: the answers in order, or a panic.
  unfoldable pub run : List (Call E) → Fifo E → Option (List (Answer E))
  run [] q = some []
  run (c ∷ cs) q = step c q >>= λ r. (run cs r.1 >>= λ as'. some (r.0 ∷ as'))

  unfoldable pub list_run : List (Call E) → List (ℕ × E) → List (Answer E)
  list_run [] xs = []
  list_run (c ∷ cs) xs = let (a, ys) = list_step c xs in a ∷ list_run cs ys

  abbrev pub AllFresh : List (Call E) → List (ℕ × E) → Type 0
  AllFresh [] xs = Unit
  AllFresh (c ∷ cs) xs = IsFresh c xs × AllFresh cs (list_step c xs).1

  run-Represents :
      (cs : List (Call E)) (xs : List (ℕ × E)) (q : Fifo E)
      → AllFresh cs xs
      → Represents q xs
      → run cs q ≡ some (list_run cs xs)
  unfolding run list_run
  run-Represents [] xs q fresh h = refl
  run-Represents (c ∷ cs) xs q fresh h =
      let (r, ran, rep) = step-Represents c xs q fresh.0 h in
      rw ran (rw (run-Represents cs (list_step c xs).1 r fresh.1 rep))

  -- From the empty queue, any history of calls in which a pushed id is not queued at that time runs
  -- without a panic and gives the answers of the reference queue.
  pub run-new : (cs : List (Call E)) → AllFresh cs [] → run cs new ≡ some (list_run cs [])
  run-new cs fresh = run-Represents cs [] new fresh new-Represents

  -- The queue's length is the number of tasks that it holds.
  pub len-Represents : (q : Fifo E) (xs : List (ℕ × E)) → Represents q xs → len q ≡ length xs
  unfolding len
  len-Represents q xs h = h.counted
