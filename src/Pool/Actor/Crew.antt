-- ===== src/Pool/Actor/Crew.antt =====
-- The executors of a pool: which are idle, how many are busy, and how the loops of the actor keep
-- these together.
use rustservicelib.Base.{
  total, ℕ, zero, suc, ◌+◌, ◌≤◌, ◌<◌, List, [], ◌∷◌, ◌++◌, none, some, Bool, true, false, ◌==◌,
  nat_eq, if◌then◌else◌, ltb, length, lookup, insert, remove, All, IsMap, arith, ◌≡◌, refl, sym,
  ◌∙◌, lookup-remove_ne, lookup-insert_ne, lookup-insert, lookup-insert_self, length-remove_found,
  remove-IsMap, insert-IsMap, ◌⊎◌, inl, inr, Bool-cases, length-insert_new, length-append, ap,
  Option-cases, lookup-remove,
}
use rustservicelib.Pool.Fifo.Tally.{task_test}
use rustservicelib.Pool.Pending
use rustservicelib.Pool.Pending.{PendingQueue}
use rustservicelib.Pool.Actor.{Actor, retire, spawn, dispatch}

abbrev pub elem : ℕ → List ℕ → Bool
elem k [] = false
elem k (x ∷ xs) = if x == k then true else elem k xs

abbrev pub NoDup : List ℕ → Type 0
NoDup [] = Unit
NoDup (x ∷ xs) = (elem x xs ≡ false) × NoDup xs

abbrev pub Known : List (ℕ × Unit {0}) → List ℕ → Type 0
Known m xs = All (λ w. lookup w m ≡ some tt) xs

-- The idle executors are executors, each once, and the others are the busy ones.
pub record Crew (idle : List ℕ) (m : List (ℕ × Unit {0})) (busy next : ℕ) : Type 0 where
  pub distinct : NoDup idle
  pub known : Known m idle
  pub is_map : IsMap m
  pub counted : length idle + busy ≡ length m
  pub below : (w : ℕ) → lookup w m ≡ some tt → w < next

Known-remove :
    (w : ℕ) (m : List (ℕ × Unit {0})) (xs : List ℕ)
    → elem w xs ≡ false
    → Known m xs
    → Known (remove w m) xs
Known-remove w m [] h k = tt
Known-remove w m (x ∷ xs) h k =
    let other : (w == x) ≡ false = ground arith in
    (lookup-remove_ne w x m other ∙ k.0, Known-remove w m xs (ground arith) k.1)

Known-insert :
    (w : ℕ) (m : List (ℕ × Unit {0})) (xs : List ℕ)
    → lookup w m ≡ none
    → Known m xs
    → Known (insert w tt m) xs
Known-insert w m [] h k = tt
Known-insert w m (x ∷ xs) h k = (ground (arith, lookup-insert w x tt m), Known-insert w m xs h k.1)

-- Distinct executors are no more than all executors.
length-Known :
    (xs : List ℕ) (m : List (ℕ × Unit {0})) → NoDup xs → Known m xs → IsMap m → length xs ≤ length m
length-Known [] m d k u = omega arith
length-Known (x ∷ xs) m d k u = omega (
  arith,
  length-remove_found x tt m u k.0,
  length-Known xs (remove x m) d.1 (Known-remove x m xs d.0 k.1) (remove-IsMap x m u),
)

-- Where an executor is not idle, some executor is busy.
pub busy_pos :
    (w : ℕ) (idle : List ℕ) (m : List (ℕ × Unit {0})) (busy next : ℕ)
    → Crew idle m busy next
    → lookup w m ≡ some tt
    → elem w idle ≡ false
    → 0 < busy
busy_pos w idle m busy next c found out =
    omega (arith, c.counted, length-Known (w ∷ idle) m (out, c.distinct) (found, c.known) c.is_map)

elem_snoc : (k w : ℕ) (xs : List ℕ) → elem k (xs ++ w ∷ []) ≡ (if elem k xs then true else w == k)
elem_snoc k w [] = ground arith
elem_snoc k w (x ∷ xs) = ground (arith, elem_snoc k w xs)

NoDup-snoc : (w : ℕ) (xs : List ℕ) → elem w xs ≡ false → NoDup xs → NoDup (xs ++ w ∷ [])
NoDup-snoc w [] h d = (refl, tt)
NoDup-snoc w (x ∷ xs) h d =
    let other : (w == x) ≡ false = ground arith in
    (elem_snoc x w xs ∙ rw (d.0, other) refl, NoDup-snoc w xs (ground arith) d.1)

Known-snoc :
    (w : ℕ) (m : List (ℕ × Unit {0})) (xs : List ℕ)
    → lookup w m ≡ some tt
    → Known m xs
    → Known m (xs ++ w ∷ [])
Known-snoc w m [] h k = (h, tt)
Known-snoc w m (x ∷ xs) h k = (k.0, Known-snoc w m xs h k.1)

-- A busy executor that is done becomes idle.
pub release-Crew :
    (w : ℕ) (idle : List ℕ) (m : List (ℕ × Unit {0})) (busy next : ℕ)
    → Crew idle m (suc busy) next
    → lookup w m ≡ some tt
    → elem w idle ≡ false
    → Crew (idle ++ w ∷ []) m busy next
release-Crew w idle m busy next c found out = record {
  distinct = NoDup-snoc w idle out c.distinct;
  known = Known-snoc w m idle found c.known;
  is_map = c.is_map;
  counted = omega (arith, c.counted, length-append idle (w ∷ []));
  below = c.below;
}

-- Retirement stops at the target, or when no executor is idle.
pub retire-Crew :
    (target : ℕ) (idle : List ℕ) (m : List (ℕ × Unit {0})) (busy next : ℕ)
    → Crew idle m busy next
    → let r = retire target idle m in Crew r.0 r.1 busy next × ((length r.1 ≤ target) ⊎ (r.0 ≡ []))
unfolding retire
retire-Crew target [] m busy next c = (c, inr refl)
retire-Crew target (w ∷ idle) m busy next c = elim (Bool-cases (ltb target (length m))) [
  | inl more ↦ rw more (
      retire-Crew target idle (remove w m) busy next (record {
        distinct = c.distinct.1;
        known = Known-remove w m idle c.distinct.0 c.known.1;
        is_map = remove-IsMap w m c.is_map;
        counted = omega (arith, c.counted, length-remove_found w tt m c.is_map c.known.0);
        below = λ v found. c.below v (still v found);
      }))
  | inr enough ↦ rw enough (c, inl (ground arith))
]
  where
    still : (v : ℕ) → lookup v (remove w m) ≡ some tt → lookup v m ≡ some tt
    still v found = ground (arith, lookup-remove w v m)

not_idle :
    (w : ℕ) (xs : List ℕ) (m : List (ℕ × Unit {0}))
    → lookup w m ≡ none
    → Known m xs
    → elem w xs ≡ false
not_idle w [] m h k = refl
not_idle w (x ∷ xs) m h k = elim (Bool-cases (x == w)) [
  | inl same ↦
      let e : x ≡ w = (nat_eq.beq_iff x w).0 same in
      absurd (found_none (sym h ∙ ap (λ i. lookup i m) (sym e) ∙ k.0))
  | inr other ↦ rw other (not_idle w xs m h k.1)
]
  where
    found_none : none ≡ some (tt {0}) → ⊥
    found_none e = cc

bound :
    (w v : ℕ) (m : List (ℕ × Unit {0}))
    → ((u : ℕ) → lookup u m ≡ some tt → u < w)
    → lookup v (insert w tt m) ≡ some tt
    → v < suc w
bound w v m h found = elim (Bool-cases (w == v)) [
  | inl same ↦ omega (arith, (nat_eq.beq_iff w v).0 same)
  | inr other ↦ omega (arith, h v (sym (lookup-insert_ne w v tt m other) ∙ found))
]

module _ {ℓ} {E : Type ℓ} where
  -- What starting executors leaves alone.
  pub record Spawned (a b : Actor E) : Type ℓ where
    pub same_queue : b.queue ≡ a.queue
    pub same_busy : b.busy ≡ a.busy
    pub same_retiring : b.retiring ≡ a.retiring
    pub same_next_id : b.next_id ≡ a.next_id
    pub same_target : b.target ≡ a.target
    pub same_started : b.started ≡ a.started
    pub same_stopped : b.stopped ≡ a.stopped

  same_all : (a : Actor E) → Spawned a a
  same_all a = record {
    same_queue = refl;
    same_busy = refl;
    same_retiring = refl;
    same_next_id = refl;
    same_target = refl;
    same_started = refl;
    same_stopped = refl;
  }

  pub spawn-Spawned : (n : ℕ) (a : Actor E) → Spawned a (spawn n a)
  unfolding spawn
  spawn-Spawned zero a = same_all a
  spawn-Spawned (suc n) a = elim (Bool-cases (ltb (length a.executors) a.target)) [
    | inl more ↦
        let s = spawn-Spawned n (record a {
          next_worker = suc a.next_worker;
          executors = insert a.next_worker tt a.executors;
          idle = a.idle ++ a.next_worker ∷ [];
          workers = suc a.workers;
        }) in
        rw more (record {
          same_queue = s.same_queue;
          same_busy = s.same_busy;
          same_retiring = s.same_retiring;
          same_next_id = s.same_next_id;
          same_target = s.same_target;
          same_started = s.same_started;
          same_stopped = s.same_stopped;
        })
    | inr enough ↦ rw enough (same_all a)
  ]

  capped :
      (a b r : Actor E)
      → length a.executors < a.target
      → length b.executors ≡ length a.executors + 1
      → (length r.executors ≤ a.target) ⊎ (r.executors ≡ b.executors)
      → (length r.executors ≤ a.target) ⊎ (r.executors ≡ a.executors)
  capped a b r lt grown (inl h) = inl h
  capped a b r lt grown (inr e) = inl (omega (arith, ap length e, grown, lt))

  -- Enough rounds reach the target, and what was above it stays.
  pub spawn-Crew :
      (n : ℕ) (a : Actor E)
      → Crew a.idle a.executors a.busy a.next_worker
      → let b = spawn n a in
        Crew b.idle b.executors b.busy b.next_worker
        × (a.target ≤ length a.executors + n → a.target ≤ length b.executors)
        × ((length b.executors ≤ a.target) ⊎ (b.executors ≡ a.executors))
        × ((a.target ≤ length a.executors) → b.idle ≡ a.idle)
  unfolding spawn
  spawn-Crew zero a c = (c, λ h. omega (arith, h), inr refl, λ h. refl)
  spawn-Crew (suc n) a c = elim (Bool-cases (ltb (length a.executors) a.target)) [
    | inl more ↦
        let w = a.next_worker in
        let fresh : lookup w a.executors ≡ none = elim (Option-cases (lookup w a.executors)) [
          | inl m ↦ m
          | inr (u, found) ↦ absurd (omega (arith, c.below w found))
        ] in
        let unknown : elem w a.idle ≡ false = not_idle w a.idle a.executors fresh c.known in
        let b : Actor E = record a {
          next_worker = suc w;
          executors = insert w tt a.executors;
          idle = a.idle ++ w ∷ [];
          workers = suc a.workers;
        } in
        let grown = length-insert_new w tt a.executors fresh in
        let crew : Crew b.idle b.executors b.busy b.next_worker = record {
          distinct = NoDup-snoc w a.idle unknown c.distinct;
          known =
              Known-snoc w b.executors a.idle (lookup-insert_self w tt a.executors)
                (Known-insert w a.executors a.idle fresh c.known);
          is_map = insert-IsMap w tt a.executors c.is_map;
          counted = omega (arith, c.counted, grown, length-append a.idle (w ∷ []));
          below = λ v found. bound w v a.executors c.below found;
        } in
        let (crew', reach, cap, _) = spawn-Crew n b crew in
        let more_lt : length a.executors < a.target = ground arith in
        rw more (
          crew',
          λ h. reach (omega (arith, grown, h)),
          capped a b (spawn n b) more_lt grown cap,
          λ h. absurd (omega (arith, more_lt, h)),
        )
    | inr enough ↦ rw enough (c, λ h. ground arith, inr refl, λ h. refl)
  ]

  -- The tasks go to idle executors, in the order of the queue, until either runs out.
  pub dispatch-Crew :
      (idle : List ℕ) (busy next n : ℕ) (m : List (ℕ × Unit {0})) (q : PendingQueue E)
      → Crew idle m busy next
      → Pending.Ok n q
      → (sent : List (ℕ × E)) × (rest : List ℕ) × (r : PendingQueue E) × (dispatch idle busy m q
          ≡ some (sent, rest, busy + length sent, r))
        × Crew rest m (busy + length sent) next
        × Pending.Ok n r
        × ((v : E → Bool) → Pending.tally v r + total (task_test v) sent ≡ Pending.tally v q)
        × ((rest ≡ []) ⊎ (Pending.len r ≡ 0))
  unfolding dispatch
  dispatch-Crew [] busy next n m q c ok =
      let e : busy + 0 ≡ busy = omega arith in
      ([], [], q, rw e refl, rw e c, ok, λ v. omega arith, inl refl)
  dispatch-Crew (w ∷ idle) busy next n m q c ok = elim (Bool-cases (Pending.len q == 0)) [
    | inl none_left ↦
        let e : busy + 0 ≡ busy = omega arith in
        (
          [],
          w ∷ idle,
          q,
          rw none_left (rw e refl),
          rw e c,
          ok,
          λ v. omega arith,
          inr ((nat_eq.beq_iff _ 0).0 none_left),
        )
    | inr some_left ↦
        let left : 0 < Pending.len q = ground arith in
        let (id, e, p, popped, ok', fewer) = Pending.pop-Ok n q ok left in
        let crew : Crew idle m (suc busy) next = record {
          distinct = c.distinct.1;
          known = c.known.1;
          is_map = c.is_map;
          counted = omega (arith, c.counted);
          below = c.below;
        } in
        let (sent, rest, r, ran, crew', ok'', kept, done) =
          dispatch-Crew idle (suc busy) next n m p crew ok' in
        let count : busy + suc (length sent) ≡ suc busy + length sent = omega arith in
        (
          (w, e) ∷ sent,
          rest,
          r,
          rw some_left (rw popped (rw c.known.0 (rw ran (rw count refl)))),
          rw count crew',
          ok'',
          λ v. omega (arith, kept v, fewer v),
          done,
        )
  ]
