-- ===== src/Kafka/Checkpoint/Failure.antt =====
-- What a failed rebalance of src/datasource/kafka/checkpoint.rs leaves.
use Prim.Native.String.{String}
use rustservicelib.Base.{
  ℕ, suc, List, [], ◌∷◌, Option, none, some, Bool, true, false, ◌==◌, nat_eq, if◌then◌else◌, lookup,
  ◌||◌, arith, ◌≡◌, refl, sym, ◌∙◌, ◌⊎◌, inl, inr, Bool-cases, Option-cases, ap,
}
use rustservicelib.Base.Int.{ℤ, int_eq}
use rustservicelib.Kafka.Checkpoint.{
  HandlerError, HandlerResult, done, failed, Item, Assignments, Native, RebalanceEvent, assigns,
  revokes, other_event, remove_listed, acknowledge, fail, take_error, insert_listed, remove_one,
  apply, rebalance, elem, cancel_values, revoked_assignment, assign_partitions, revoke_partitions,
  clear_all, is_cancelled, entered, assigned, revoked, settled,
}

cancel_values-elem :
    (ps : List (ℤ × (ℕ × ℕ))) (cs : List ℕ) (p : ℤ) (g c : ℕ)
    → lookup p ps ≡ some (g, c)
    → elem c (cancel_values ps cs) ≡ true
unfolding lookup
cancel_values-elem [] cs p g c h = cc
cancel_values-elem ((q, (g', c')) ∷ ps) cs p g c h = elim (Bool-cases (q == p)) [
  | inl same ↦
      let first : ◌≡◌ {A = Option (ℕ × ℕ)} (some (g', c')) (some (g, c)) = sym (rw same refl) ∙ h in
      let eq : c' ≡ c = cc in found_first c' c _ eq
  | inr other ↦ found_later (c' == c) _ (cancel_values-elem ps cs p g c (sym (rw other refl) ∙ h))
]
  where
    found_first : (a b : ℕ) (o : Bool) → a ≡ b → (a == b || o) ≡ true
    found_first a b o e = ground arith

    found_later : (a o : Bool) → o ≡ true → (a || o) ≡ true
    found_later a o e = ground arith

-- The error and the failure of two states are the same.
abbrev SameError : Assignments → Assignments → Type 0
SameError s t = (t.error ≡ s.error) × (t.is_failed ≡ s.is_failed)

SameError-join : (s t u : Assignments) → SameError s t → SameError t u → SameError s u
SameError-join s t u h k = (k.0 ∙ h.0, k.1 ∙ h.1)

remove_one-SameError :
    (p : ℤ) (o : Option (ℕ × ℕ)) (s : Assignments) → SameError s (remove_one p o s)
remove_one-SameError p none s = (refl, refl)
remove_one-SameError p (some y) s = (refl, refl)

guard-SameError :
    (b : Bool) (e : HandlerError) (s u : Assignments) (m : HandlerResult (Unit {0}) × Assignments)
    → SameError s u
    → SameError s m.1
    → SameError s (if b then (failed e, u) else m).1
guard-SameError true e s u m h k = h
guard-SameError false e s u m h k = k

remove_listed-SameError :
    (items : List Item) (s : Assignments) → SameError s (remove_listed items s)
unfolding remove_listed
remove_listed-SameError [] s = (refl, refl)
remove_listed-SameError (i ∷ items) s =
    let one = remove_one i.partition (lookup i.partition s.partitions) s in
    SameError-join s one (remove_listed items one)
      (remove_one-SameError i.partition (lookup i.partition s.partitions) s)
      (remove_listed-SameError items one)

insert_listed-SameError :
    (g : ℕ) (items : List Item) (s : Assignments) → SameError s (insert_listed g items s)
unfolding insert_listed
insert_listed-SameError g [] s = (refl, refl)
insert_listed-SameError g (i ∷ items) s = insert_listed-SameError g items _

cleared-SameError : (b : Bool) (s : Assignments) → SameError s (if b then s else clear_all s)
cleared-SameError true s = (refl, refl)
cleared-SameError false s = (refl, refl)

entered-SameError :
    (items : List Item) (s u : Assignments) (r : HandlerResult (Unit {0}))
    → SameError s u
    → SameError s (entered items u r).1
entered-SameError items s u (failed e) h = h
entered-SameError items s u (done x) h =
    let later : Assignments = record u { revision = suc u.revision } in
    SameError-join s u (insert_listed (suc u.revision) items later) h
      (insert_listed-SameError (suc u.revision) items later)

assigned-SameError :
    (n : Native) (items : List Item) (s : Assignments) (r : HandlerResult (List Item))
    → SameError s (assigned n items s r).1
assigned-SameError n items s (failed e) = (refl, refl)
assigned-SameError n items s (done list) =
    let base : Assignments = if n.cooperative then s else clear_all s in
    guard-SameError s.owner _ s s _ (refl, refl)
      (entered-SameError list s (remove_listed list base) (n.assign list) (
        SameError-join s base (remove_listed list base) (cleared-SameError n.cooperative s)
          (remove_listed-SameError list base)))

revoked-SameError :
    (s u : Assignments) (r : HandlerResult (Unit {0})) → SameError s u → SameError s (revoked u r).1
revoked-SameError s u (failed e) h = h
revoked-SameError s u (done x) h = h

removed-SameError :
    (b : Bool) (items : List Item) (s : Assignments)
    → SameError s (if b then remove_listed items s else clear_all s)
removed-SameError true items s = remove_listed-SameError items s
removed-SameError false items s = (refl, refl)

-- `apply` itself neither records an error nor takes one away.
apply-SameError :
    (topic : String) (restoring : Bool) (n : Native) (ev : RebalanceEvent) (items : List Item)
    (s : Assignments)
    → SameError s (apply topic restoring n ev items s).1
unfolding apply assign_partitions revoke_partitions
apply-SameError topic restoring n assigns items s =
    guard-SameError (s.owner || s.is_failed) _ s s _ (refl, refl)
      (assigned-SameError n items (record s { owner = n.owner_meanwhile }) _)
apply-SameError topic restoring n revokes items s =
    revoked-SameError s _ (n.unassign items) (removed-SameError n.cooperative items s)
apply-SameError topic restoring n other_event items s = (refl, refl)

-- What may happen to the assignments: a rebalance, or a look for its error.
pub data Use : Type 0 where
  rebalances : String → Bool → Native → RebalanceEvent → List Item → Use
  takes_error : Use

unfoldable pub after : List Use → Assignments → Assignments
after [] s = s
after (rebalances topic restoring n ev items ∷ us) s =
    after us (rebalance topic restoring n ev items s)
after (takes_error ∷ us) s = after us (take_error s).1

rebalance_stays_failed :
    (topic : String) (restoring : Bool) (n : Native) (ev : RebalanceEvent) (items : List Item)
    (s : Assignments)
    → s.is_failed ≡ true
    → (rebalance topic restoring n ev items s).is_failed ≡ true
unfolding rebalance fail
rebalance_stays_failed topic restoring n ev items s h =
    over (apply topic restoring n ev items s) ((apply-SameError topic restoring n ev items s).1 ∙ h)
  where
    over :
        (r : HandlerResult (Unit {0}) × Assignments)
        → r.1.is_failed ≡ true
        → (settled r).is_failed ≡ true
    over (done u, t) k = k
    over (failed e, t) k = refl

after_stays_failed :
    (us : List Use) (s : Assignments) → s.is_failed ≡ true → (after us s).is_failed ≡ true
unfolding after take_error
after_stays_failed [] s h = h
after_stays_failed (rebalances topic restoring n ev items ∷ us) s h =
    after_stays_failed us _ (rebalance_stays_failed topic restoring n ev items s h)
after_stays_failed (takes_error ∷ us) s h = after_stays_failed us _ h

-- A rebalance that fails records its error, unless one was recorded before, which then stays; it
-- cancels the context of every partition that is still assigned; and from then on, over any later
-- rebalances and looks for the error, every acknowledgement is refused and calls nothing.
pub rebalance_fails {ℓ κ} :
    {N : Type ℓ} {T : Type κ} (topic : String) (restoring : Bool) (n : Native) (ev : RebalanceEvent)
    (items : List Item) (s t : Assignments) (e : HandlerError) (us : List Use) (p : ℤ) (g : ℕ)
    (f : N → HandlerResult T × N) (x : N)
    → apply topic restoring n ev items s ≡ (failed e, t)
    → let r = rebalance topic restoring n ev items s in
      (((s.error ≡ none) × (r.error ≡ some e))
        ⊎ ((old : HandlerError) × (s.error ≡ some old) × (r.error ≡ some old)))
      × ((q : ℤ)
          → (lookup q r.partitions ≡ none)
            ⊎ ((y : ℕ × ℕ) × (lookup q r.partitions ≡ some y) × (is_cancelled y.1 r ≡ true)))
      × (acknowledge p g f (after us r) x ≡ (failed revoked_assignment, x))
unfolding rebalance fail acknowledge
rebalance_fails topic restoring n ev items s t e us p g f x ran = rw ran (
  elim (Option-cases s.error) [
    | inl clean ↦ inl (clean, rw (error_same ∙ clean) refl)
    | inr (old, dirty) ↦ inr (old, dirty, rw (error_same ∙ dirty) refl)
  ],
  λ q. elim (Option-cases (lookup q t.partitions)) [
    | inl missing ↦ inl missing
    | inr (y, found) ↦ inr (
      y,
      found,
      found_later t.owner _ (cancel_values-elem t.partitions t.cancelled q y.0 y.1 found),
    )
  ],
  rw (after_stays_failed us (unfold fail in fail e t) (unfold fail in refl)) refl,
)
  where
    error_same : t.error ≡ s.error
    error_same =
        ap (λ (r : HandlerResult (Unit {0}) × Assignments). r.1.error) (sym ran)
        ∙ (apply-SameError topic restoring n ev items s).0

    found_later : (a o : Bool) → o ≡ true → (a || o) ≡ true
    found_later a o h = ground arith
