-- ===== src/Store/Join/Locks.antt =====
-- A call in its callback holds the lock of its entry, in src/runtime/store/hashmap.rs.
use rustservicelib.Base.{
  some_eq, same_cell, ℕ, List, [], ◌∷◌, ◌++◌, Option, none, some, false, ◌==◌, Eq, nat_eq, length,
  get_elem?, modify_at, map_option, get_elem?-modify_at, get_elem?-modify_at_ne, get_elem?-append,
  append-cases, if◌then◌else◌, ◌≡◌, refl, sym, ◌∙◌, ap, inl, inr, Bool-cases, Option-cases, arith,
}
use rustservicelib.Store.Join.{
  Entry, Stage, Call, Storage, Seen, waiting, invoking, admitting, retiring, removing, returned,
  accept, answer, go, fresh, new,
}
use rustservicelib.Store.Join.Steps.{Step, finish, claim, run}
use rustservicelib.Store.Join.Cells.{accept-processed}
use rustservicelib.Store.Join.Changes.{
  Change, stays, started, found, made, missed, entered, finished, retried, left, woken, postponed,
  claimed, evicted, ticked, Reaches-keeps, run-Reaches,
}

-- A call that holds the lock is the only one.
other_holds :
    (call other : ℕ) (h : Option ℕ) → (call == other) ≡ false → h ≡ some call → h ≡ some other → ⊥
other_holds call other h apart e e' =
    let same : call ≡ other = some_eq (sym e ∙ e') in ground (arith, apart, same)

free_holds : (other : ℕ) (h : Option ℕ) → h ≡ none → h ≡ some other → ⊥
free_holds other h e e' = cc

module _ {κ} {A : Type κ} where
  -- A call holds the lock of an entry whose group is not processed.
  abbrev pub Held : List (Entry A) → ℕ → ℕ → Type κ
  Held entries i call =
      (e : Entry A) × (get_elem? entries i ≡ some e)
      × (e.holder ≡ some call)
      × (e.item.processed ≡ false)

  modify_at-Held :
      (j i other : ℕ) (f : Entry A → Entry A) (entries : List (Entry A))
      → ((e : Entry A) → get_elem? entries j ≡ some e → e.holder ≡ some other → ⊥)
      → Held entries i other
      → Held (modify_at j f entries) i other
  modify_at-Held j i other f entries free (e, at, held, fresh_one) = elim (Bool-cases (j == i)) [
    | inl same ↦
        let there : get_elem? entries j ≡ some e =
          ap (get_elem? entries) (ground (arith, same)) ∙ at in
        absurd (free e there held)
    | inr apart ↦ (e, get_elem?-modify_at_ne j i f entries apart ∙ at, held, fresh_one)
  ]

  append-Held :
      (i other : ℕ) (entries more : List (Entry A))
      → Held entries i other
      → Held (entries ++ more) i other
  append-Held i other entries more (e, at, held, fresh_one) =
      (e, get_elem?-append i e entries more at, held, fresh_one)

module _ {ℓ κ} {K : Type ℓ} {A : Type κ} where
  abbrev pub LocksHeld : List (Entry A) → List (Call K A) → Type (ℓ ⊔ κ)
  LocksHeld entries calls =
      (call : ℕ) (c : Call K A) (i : ℕ)
      → get_elem? calls call ≡ some c
      → c.stage ≡ invoking i
      → Held entries i call

  -- Every call that is in its callback holds the lock of its entry, which is not processed.
  abbrev pub IsLocked : Storage K A → Type (ℓ ⊔ κ)
  IsLocked s = LocksHeld s.entries s.calls

  moved_stage :
      (call : ℕ) (st : Stage) (c : Call K A) (calls : List (Call K A))
      → get_elem? (modify_at call (go st) calls) call ≡ some c
      → c.stage ≡ st
  moved_stage call st c calls h =
      let before = sym (get_elem?-modify_at call (go st) calls) ∙ h in
      elim (Option-cases (get_elem? calls call)) [
        | inl missing ↦ absurd (none_some (sym (ap (map_option (go st)) missing) ∙ before))
        | inr (d, at) ↦
            ap (λ (x : Call K A). x.stage)
              (sym (some_eq (sym (ap (map_option (go st)) at) ∙ before)))
      ]
    where
      none_some : {x : Call K A} → none ≡ some x → ⊥
      none_some e = cc

  -- A call moves, and the other calls keep what they hold.
  moved-LocksHeld :
      (call : ℕ) (st : Stage) (entries entries' : List (Entry A)) (calls : List (Call K A))
      → ((i other : ℕ) → (call == other) ≡ false → Held entries i other → Held entries' i other)
      → ((i : ℕ) → st ≡ invoking i → Held entries' i call)
      → LocksHeld entries calls
      → LocksHeld entries' (modify_at call (go st) calls)
  moved-LocksHeld call st entries entries' calls others mine v other c i at h =
      elim (Bool-cases (call == other)) [
        | inl same ↦
            let eq : call ≡ other = ground (arith, same) in
            let here = ap (get_elem? (modify_at call (go st) calls)) eq ∙ at in
            let held = mine i (sym (moved_stage call st c calls here) ∙ h) in rw (← eq) held
        | inr apart ↦
            others i other apart
              (v other c i (sym (get_elem?-modify_at_ne call other (go st) calls apart) ∙ at) h)
      ]

  module _ ⦃eq : Eq K⦄ where
    keeps :
        (call : ℕ) (st : Stage) (s : Storage K A)
        → ((i : ℕ) → st ≡ invoking i → ⊥)
        → IsLocked s
        → LocksHeld s.entries (modify_at call (go st) s.calls)
    keeps call st s calm v =
        moved-LocksHeld call st s.entries s.entries s.calls (λ i other apart held. held)
          (λ i e. absurd (calm i e)) v

    pub Change-IsLocked :
        (s t : Storage K A) (seen : List (Seen K A)) → Change s seen t → IsLocked s → IsLocked t
    unfolding accept finish answer
    Change-IsLocked s t seen stays v = v
    Change-IsLocked s t seen (started c st) v = λ call d i at h.
        elim (append-cases call d c s.calls at) [
          | inl old ↦ v call d i old h
          | inr (last, same) ↦
              absurd (calm (sym st ∙ ap (λ (x : Call K A). x.stage) (sym same) ∙ h))
        ]
      where
        calm : {i : ℕ} → admitting ≡ invoking i → ⊥
        calm e = cc
    Change-IsLocked s t seen (found call c i at live) v = keeps call (waiting i) s (λ j e. cc) v
    Change-IsLocked s t seen (made call c at live) v =
        moved-LocksHeld call (waiting (length s.entries)) s.entries
          (s.entries ++ fresh s.now c ∷ []) s.calls
          (λ i other apart held. append-Held i other s.entries (fresh s.now c ∷ []) held)
          (λ i e. absurd cc) v
    Change-IsLocked s t seen (missed call c i e at free over) v =
        keeps call (retiring i) s (λ j e. cc) v
    Change-IsLocked s t seen (entered call c i e timers at free fresh_one live armed) v =
        moved-LocksHeld call (invoking i) s.entries
          (modify_at i (accept call (length s.timers) c) s.entries) s.calls
          (λ j other apart held.
            modify_at-Held i j other (accept call (length s.timers) c) s.entries
              (λ d here held.
                free_holds other e.holder free.1
                  (ap (λ (x : Entry A). x.holder) (sym (same_cell free.0 here)) ∙ held))
              held)
          (λ j same.
            let ij : i ≡ j = cc in
            rw (← ij) (
              accept call (length s.timers) c e,
              get_elem?-modify_at i (accept call (length s.timers) c) s.entries ∙ rw free.0 refl,
              refl,
              accept-processed call (length s.timers) c e ∙ fresh_one,
            ))
          v
    Change-IsLocked s t seen (finished call c i b at) v =
        let (e, here, held, fresh_one) = v call c i at.0 at.1 in
        moved-LocksHeld call (if b then removing i else returned) s.entries
          (modify_at i (answer s.now c b) s.entries) s.calls
          (λ j other apart held'.
            modify_at-Held i j other (answer s.now c b) s.entries
              (λ d there h.
                other_holds call other e.holder apart held
                  (ap (λ (x : Entry A). x.holder) (sym (same_cell here there)) ∙ h))
              held')
          (λ j same. absurd (ground arith)) v
    Change-IsLocked s t seen (retried call c i at) v = keeps call admitting s (λ j e. cc) v
    Change-IsLocked s t seen (left call c i at) v = keeps call returned s (λ j e. cc) v
    Change-IsLocked s t seen (woken n w st at h) v = v
    Change-IsLocked s t seen (postponed n w deadline at) v = v
    Change-IsLocked s t seen (claimed n w e at st free fresh_one) v = λ call c i here h.
        modify_at-Held w.item i call claim s.entries
          (λ d there held.
            free_holds call e.holder free.1
              (ap (λ (x : Entry A). x.holder) (sym (same_cell free.0 there)) ∙ held))
          (v call c i here h)
    Change-IsLocked s t seen (evicted n w at st) v = v
    Change-IsLocked s t seen (ticked n) v = v

    pub new-IsLocked : IsLocked (new {K = K} {A = A})
    new-IsLocked = unfold new in λ call c i at. absurd cc

    -- From an empty storage, after any steps of the calls and of the expiry tasks in any order, each
    -- call in its callback holds the lock of its entry, and the group there is not processed.
    pub run-IsLocked :
        (xs : List (Step K A)) (t : Storage K A) (seen : List (Seen K A))
        → run xs new ≡ some (seen, t)
        → IsLocked t
    run-IsLocked xs t seen h =
        Reaches-keeps IsLocked Change-IsLocked (run-Reaches xs new t seen h) new-IsLocked
