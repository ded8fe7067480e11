-- ===== src/Kafka/Checkpoint/Rebalance.antt =====
-- The assignments of src/datasource/kafka/checkpoint.rs over any rebalance.
use Prim.Native.String.{String}
use rustservicelib.Base.{
  ℕ, suc, ◌≤◌, List, Option, some, Bool, true, false, nat_eq, if◌then◌else◌, lookup, ◌||◌, arith,
  ◌≡◌, refl, sym, ◌∙◌, inl, inr, Bool-cases, ap,
}
use rustservicelib.Base.Int.{ℤ, int_eq}
use rustservicelib.Kafka.Checkpoint.{
  HandlerError, HandlerResult, done, failed, Item, Assignments, Native, RebalanceEvent, assigns,
  revokes, other_event, remove_listed, fail, apply, rebalance, assign_partitions, revoke_partitions,
  clear_all, entered, assigned, revoked, settled,
}
use rustservicelib.Kafka.Checkpoint.Items.{
  listed, remove_listed-lookup, insert_listed-other, insert_listed-listed,
}
use rustservicelib.Kafka.Checkpoint.Fence.{
  Inv, remove_listed-revision, insert_listed-revision, cleared-revision, cleared,
}

-- What is assigned after the removals was assigned before.
kept :
    (b : Bool) (items : List Item) (s : Assignments) (p : ℤ) (x : ℕ × ℕ)
    → lookup p (if b then remove_listed items s else clear_all s).partitions ≡ some x
    → lookup p s.partitions ≡ some x
unfolding lookup
kept true items s p x h = (remove_listed-lookup items s p x h).0
kept false items s p x h = cc

removed-revision :
    (b : Bool) (items : List Item) (s : Assignments)
    → (if b then remove_listed items s else clear_all s).revision ≡ s.revision
removed-revision true items s = remove_listed-revision items s
removed-revision false items s = refl

abbrev Grows : Assignments → Assignments → Type 0
Grows s t = Inv t × (s.revision ≤ t.revision)

weaken :
    (s u : Assignments)
    → Inv s
    → u.revision ≡ s.revision
    → ((p : ℤ) (x : ℕ × ℕ) → lookup p u.partitions ≡ some x → lookup p s.partitions ≡ some x)
    → Grows s u
weaken s u v r k = (λ p x h. omega (arith, v p x (k p x h), r), omega (arith, r))

revoked-Grows :
    (s u : Assignments) (r : HandlerResult (Unit {0})) → Grows s u → Grows s (revoked u r).1
revoked-Grows s u (failed e) v = v
revoked-Grows s u (done x) v = (λ p y h. omega (arith, v.0 p y h), omega (arith, v.1))

entered-Grows :
    (items : List Item) (s u : Assignments) (r : HandlerResult (Unit {0}))
    → Grows s u
    → Grows s (entered items u r).1
entered-Grows items s u (failed e) v = v
entered-Grows items s u (done x) v =
    let u' : Assignments = record u { revision = suc u.revision } in
    let rev = insert_listed-revision (suc u.revision) items u' in
    (
      λ p y h. elim (Bool-cases (listed p items)) [
        | inl inside ↦
            let (c, at) = insert_listed-listed (suc u.revision) items u' p inside in
            omega (arith, rev, generation_of y c (sym h ∙ at))
        | inr outside ↦ omega (
          arith,
          rev,
          v.0 p y (sym (insert_listed-other (suc u.revision) items u' p outside) ∙ h),
        )
      ],
      omega (arith, rev, v.1),
    )
  where
    generation_of :
        (y : ℕ × ℕ) (c : ℕ)
        → ◌≡◌ {A = Option (ℕ × ℕ)} (some y) (some (suc u.revision, c))
        → y.0 ≡ suc u.revision
    generation_of y c e =
        let same : ◌≡◌ {A = ℕ × ℕ} y (suc u.revision, c) = cc in ap (λ (z : ℕ × ℕ). z.0) same

guard-Grows :
    (b : Bool) (e : HandlerError) (s : Assignments) (m : HandlerResult (Unit {0}) × Assignments)
    → Inv s
    → Grows s m.1
    → Grows s (if b then (failed e, s) else m).1
guard-Grows true e s m v v' = (v, omega arith)
guard-Grows false e s m v v' = v'

base-lookup :
    (b : Bool) (list : List Item) (s : Assignments) (p : ℤ) (x : ℕ × ℕ)
    → lookup p (remove_listed list (if b then s else clear_all s)).partitions ≡ some x
    → lookup p s.partitions ≡ some x
base-lookup b list s p x h =
    cleared b s p x (remove_listed-lookup list (if b then s else clear_all s) p x h).0

assigned-Grows :
    (n : Native) (items : List Item) (s : Assignments) (r : HandlerResult (List Item))
    → Inv s
    → Grows s (assigned n items s r).1
assigned-Grows n items s (failed e) v = (v, omega arith)
assigned-Grows n items s (done list) v =
    let base : Assignments = if n.cooperative then s else clear_all s in
    guard-Grows s.owner _ s _ v (
      entered-Grows list s (remove_listed list base) (n.assign list) (
        weaken s (remove_listed list base) v
          (remove_listed-revision list base ∙ cleared-revision n.cooperative s)
          (base-lookup n.cooperative list s)))

apply-Grows :
    (topic : String) (restoring : Bool) (n : Native) (ev : RebalanceEvent) (items : List Item)
    (s : Assignments)
    → Inv s
    → Grows s (apply topic restoring n ev items s).1
unfolding apply assign_partitions revoke_partitions
apply-Grows topic restoring n assigns items s v =
    guard-Grows (s.owner || s.is_failed) _ s _ v
      (assigned-Grows n items (record s { owner = n.owner_meanwhile }) _ v)
apply-Grows topic restoring n revokes items s v =
    revoked-Grows s (if n.cooperative then remove_listed items s else clear_all s)
      (n.unassign items)
      (weaken s (if n.cooperative then remove_listed items s else clear_all s) v
        (removed-revision n.cooperative items s) (kept n.cooperative items s))
apply-Grows topic restoring n other_event items s v = (v, omega arith)

settled-Grows :
    (s : Assignments) (r : HandlerResult (Unit {0}) × Assignments)
    → Grows s r.1
    → Grows s (settled r)
unfolding fail
settled-Grows s (failed e, t) v = v
settled-Grows s (done u, t) v = v

-- Whatever the native calls answer, a rebalance keeps every generation within the revision, and the
-- revision never goes back.
pub rebalance-Inv :
    (topic : String) (restoring : Bool) (n : Native) (ev : RebalanceEvent) (items : List Item)
    (s : Assignments)
    → Inv s
    → Inv (rebalance topic restoring n ev items s)
      × (s.revision ≤ (rebalance topic restoring n ev items s).revision)
unfolding rebalance
rebalance-Inv topic restoring n ev items s v =
    settled-Grows s (apply topic restoring n ev items s)
      (apply-Grows topic restoring n ev items s v)
