-- ===== src/Kafka/Checkpoint/Fence.antt =====
-- An acknowledgement of an older assignment never reaches the native consumer, and a new assignment
-- stands inside the log.
use Prim.Native.String.{String}
use rustservicelib.Base.{
  ℕ, suc, ◌≤◌, List, [], ◌∷◌, Option, none, some, Bool, true, false, ◌==◌, nat_eq, if◌then◌else◌,
  lookup, ◌||◌, not, is_some, arith, ◌≡◌, refl, sym, ◌∙◌, inl, inr, Option-cases, ap,
}
use rustservicelib.Base.Int.{ℤ, int_eq}
use rustservicelib.Kafka.Checkpoint.{
  HandlerError, HandlerResult, done, failed, Item, Assignments, Native, assigns, revokes,
  remove_listed, insert_listed, check_items, acknowledge, current, apply, revoked_assignment,
  assign_partitions, revoke_partitions, validate, clear_all, checked, same, recovery_mode_changed,
  entered, assigned, revoked, remove_one,
}
use rustservicelib.Kafka.Checkpoint.Items.{
  listed, IsBounded, remove_listed-lookup, insert_listed-listed, AllChecked, bind_done,
  check_items-AllChecked,
}

abbrev pub Inv : Assignments → Type 0
Inv s = IsBounded s.partitions s.revision

pub cleared :
    (c : Bool) (s : Assignments) (p : ℤ) (x : ℕ × ℕ)
    → lookup p (if c then s else clear_all s).partitions ≡ some x
    → lookup p s.partitions ≡ some x
unfolding lookup
cleared true s p x h = h
cleared false s p x h = cc

remove_one-revision :
    (p : ℤ) (o : Option (ℕ × ℕ)) (s : Assignments) → (remove_one p o s).revision ≡ s.revision
remove_one-revision p none s = refl
remove_one-revision p (some x) s = refl

pub remove_listed-revision :
    (is : List Item) (s : Assignments) → (remove_listed is s).revision ≡ s.revision
unfolding remove_listed
remove_listed-revision [] s = refl
remove_listed-revision (i ∷ is) s =
    remove_listed-revision is (remove_one i.partition (lookup i.partition s.partitions) s)
    ∙ remove_one-revision i.partition (lookup i.partition s.partitions) s

pub insert_listed-revision :
    (g : ℕ) (is : List Item) (s : Assignments) → (insert_listed g is s).revision ≡ s.revision
unfolding insert_listed
insert_listed-revision g [] s = refl
insert_listed-revision g (i ∷ is) s = insert_listed-revision g is _

pub cleared-revision :
    (c : Bool) (s : Assignments) → (if c then s else clear_all s).revision ≡ s.revision
cleared-revision true s = refl
cleared-revision false s = refl

entered_done :
    (items : List Item) (u t : Assignments) (r : HandlerResult (Unit {0}))
    → entered items u r ≡ (done tt, t)
    → (r ≡ done tt)
      × (insert_listed (suc u.revision) items (record u { revision = suc u.revision }) ≡ t)
entered_done items u t (failed e) h = cc
entered_done items u t (done tt) h = (refl, ap (λ z. z.1) h)

-- What a successful assignment has gone through.
record Assigned (topic : String) (restoring : Bool) (n : Native) (items : List Item)
    (s t : Assignments) (list : List Item) : Type 0 where
  was_checked : checked topic restoring n items ≡ done list
  was_assigned : n.assign list ≡ done tt
  result :
      let s' : Assignments = record s { owner = n.owner_meanwhile } in
      let u = remove_listed list (if n.cooperative then s' else clear_all s') in
      insert_listed (suc u.revision) list (record u { revision = suc u.revision }) ≡ t

-- A guard that a successful step has passed.
guard_done :
    (b : Bool) (e : HandlerError) (s t : Assignments) (m : HandlerResult (Unit {0}) × Assignments)
    → (if b then (failed e, s) else m) ≡ (done tt, t)
    → m ≡ (done tt, t)
guard_done true e s t m h = cc
guard_done false e s t m h = h

assign-Assigned :
    (topic : String) (restoring : Bool) (n : Native) (items : List Item) (s t : Assignments)
    → assign_partitions topic restoring n items s ≡ (done tt, t)
    → (list : List Item) × Assigned topic restoring n items s t list
unfolding assign_partitions
assign-Assigned topic restoring n items s t h =
    with_list (checked topic restoring n items) refl (guard_done (s.owner || s.is_failed) _ _ t _ h)
  where
    with_list :
        (r : HandlerResult (List Item))
        → checked topic restoring n items ≡ r
        → assigned n items (record s { owner = n.owner_meanwhile }) r ≡ (done tt, t)
        → (list : List Item) × Assigned topic restoring n items s t list
    with_list (failed e) c h' = cc
    with_list (done list) c h' =
        let (a, b) =
          entered_done list _ t (n.assign list) (guard_done n.owner_meanwhile _ _ t _ h') in
        (list, record { was_checked = c; was_assigned = a; result = b })

listed-AllChecked :
    (p : ℤ) (topic : String) (n : Native) (o : Option (List (ℤ × ℤ))) (is js : List Item)
    → AllChecked topic n o is js
    → listed p js ≡ listed p is
listed-AllChecked p topic n o [] [] a = refl
listed-AllChecked p topic n o [] (j ∷ js) a = absurd a
listed-AllChecked p topic n o (i ∷ is) [] a = absurd a
listed-AllChecked p topic n o (i ∷ is) (j ∷ js) a =
    rw (a.0.same_partition, listed-AllChecked p topic n o is js a.1) refl

-- What was restored, when the checks succeed.
checked_done :
    (topic : String) (restoring : Bool) (n : Native) (items list : List Item)
    → checked topic restoring n items ≡ done list
    → (o : Option (List (ℤ × ℤ))) × (n.restore ≡ done o)
      × (validate o ≡ done tt)
      × (is_some o ≡ restoring)
      × AllChecked topic n o items list
checked_done topic restoring n items list h =
    let (o, restored, rest) = bind_done n.restore _ list h in
    let (tt', valid, rest') = bind_done (validate o) _ list rest in
    let (mode, ran) = mode_done (is_some o) restoring (check_items topic n o items) rest' in
    (o, restored, valid, mode, check_items-AllChecked topic n o items list ran)
  where
    mode_done :
        (a b : Bool) (m : HandlerResult (List Item))
        → (if same a b then m else failed recovery_mode_changed) ≡ done list
        → (a ≡ b) × (m ≡ done list)
    mode_done true true m h' = (refl, h')
    mode_done true false m h' = cc
    mode_done false true m h' = cc
    mode_done false false m h' = (refl, h')

-- An acknowledgement of another generation than the one that is assigned.
ack_other {ℓ κ} :
    {N : Type ℓ} {T : Type κ} (p : ℤ) (g h c : ℕ) (f : N → HandlerResult T × N) (t : Assignments)
    (x : N)
    → lookup p t.partitions ≡ some (h, c)
    → (h == g) ≡ false
    → acknowledge p g f t x ≡ (failed revoked_assignment, x)
unfolding acknowledge current
ack_other p g h c f t x at other = rw at (rw other (refuses t.is_failed))
  where
    refuses :
        (b : Bool)
        → (if b || true then (failed revoked_assignment, x) else f x)
          ≡ (failed revoked_assignment, x)
    refuses true = refl
    refuses false = refl

ack_missing {ℓ κ} :
    {N : Type ℓ} {T : Type κ} (p : ℤ) (g : ℕ) (f : N → HandlerResult T × N) (t : Assignments)
    (x : N)
    → lookup p t.partitions ≡ none
    → acknowledge p g f t x ≡ (failed revoked_assignment, x)
unfolding acknowledge current
ack_missing p g f t x at = rw at (refuses t.is_failed)
  where
    refuses :
        (b : Bool)
        → (if b || true then (failed revoked_assignment, x) else f x)
          ≡ (failed revoked_assignment, x)
    refuses true = refl
    refuses false = refl

newer : (g r : ℕ) → g ≤ r → (suc r == g) ≡ false
newer g r h = ground arith

-- After partitions are assigned, each stands under a generation that is newer than all before, and
-- an acknowledgement with an earlier generation is refused and calls nothing.
pub assign_fences {ℓ κ} :
    {N : Type ℓ} {T : Type κ} (topic : String) (restoring : Bool) (n : Native) (items : List Item)
    (s t : Assignments) (p : ℤ) (g : ℕ) (f : N → HandlerResult T × N) (x : N)
    → apply topic restoring n assigns items s ≡ (done tt, t)
    → listed p items ≡ true
    → g ≤ s.revision
    → (t.revision ≡ suc s.revision)
      × ((c : ℕ) × (lookup p t.partitions ≡ some (suc s.revision, c)))
      × (acknowledge p g f t x ≡ (failed revoked_assignment, x))
unfolding apply
assign_fences topic restoring n items s t p g f x h l older =
    let (list, a) = assign-Assigned topic restoring n items s t h in
    let (o, _, _, _, all) = checked_done topic restoring n items list a.was_checked in
    let s' : Assignments = record s { owner = n.owner_meanwhile } in
    let base : Assignments = if n.cooperative then s' else clear_all s' in
    let u : Assignments = remove_listed list base in
    let rev : u.revision ≡ s.revision =
      remove_listed-revision list base ∙ cleared-revision n.cooperative s' in
    let (c, at) =
      insert_listed-listed (suc u.revision) list (record u { revision = suc u.revision }) p
        (listed-AllChecked p topic n o items list all ∙ l) in
    let at' : lookup p t.partitions ≡ some (suc s.revision, c) =
      ap (λ (z : Assignments). lookup p z.partitions) (sym a.result)
      ∙ at
      ∙ ap (λ (r : ℕ). some (suc r, c)) rev in
    (
      ap (λ (z : Assignments). z.revision) (sym a.result)
          ∙ insert_listed-revision (suc u.revision) list (record u { revision = suc u.revision })
          ∙ ap suc rev,
      (c, at'),
      ack_other p g (suc s.revision) c f t x at' (newer g s.revision older),
    )

-- Partitions are assigned only with a valid checkpoint in the mode in which the source started, of
-- the source's topic, and each with a checkpoint inside the retained log, when it restores.
pub assign_in_log :
    (topic : String) (restoring : Bool) (n : Native) (items : List Item) (s t : Assignments)
    → apply topic restoring n assigns items s ≡ (done tt, t)
    → (o : Option (List (ℤ × ℤ))) × (list : List Item) × (n.restore ≡ done o)
      × (validate o ≡ done tt)
      × (is_some o ≡ restoring)
      × AllChecked topic n o items list
      × (n.assign list ≡ done tt)
unfolding apply
assign_in_log topic restoring n items s t h =
    let (list, a) = assign-Assigned topic restoring n items s t h in
    let (o, restored, valid, mode, all) = checked_done topic restoring n items list a.was_checked in
    (o, list, restored, valid, mode, all, a.was_assigned)

revoked_done :
    (u t : Assignments) (r : HandlerResult (Unit {0}))
    → revoked u r ≡ (done tt, t)
    → t ≡ record u { revision = suc u.revision }
revoked_done u t (failed e) h = cc
revoked_done u t (done tt) h = sym (ap (λ z. z.1) h)

-- A partition that a revocation lists, or any partition when the protocol is not cooperative.
abbrev pub taken : Native → List Item → ℤ → Bool
taken n items p = not n.cooperative || listed p items

gone :
    (b : Bool) (items : List Item) (s : Assignments) (p : ℤ)
    → (not b || listed p items) ≡ true
    → lookup p (if b then remove_listed items s else clear_all s).partitions ≡ none
unfolding lookup
gone false items s p h = refl
gone true items s p h = elim (Option-cases (lookup p (remove_listed items s).partitions)) [
  | inl missing ↦ missing
  | inr (x, found) ↦ absurd (clash (sym h ∙ (remove_listed-lookup items s p x found).1))
]
  where
    clash : true ≡ false → ⊥
    clash e = cc

-- After partitions are revoked, an acknowledgement on one of them is refused in every generation and
-- calls nothing.
pub revoke_fences {ℓ κ} :
    {N : Type ℓ} {T : Type κ} (topic : String) (restoring : Bool) (n : Native) (items : List Item)
    (s t : Assignments) (p : ℤ) (g : ℕ) (f : N → HandlerResult T × N) (x : N)
    → apply topic restoring n revokes items s ≡ (done tt, t)
    → taken n items p ≡ true
    → acknowledge p g f t x ≡ (failed revoked_assignment, x)
unfolding apply revoke_partitions
revoke_fences topic restoring n items s t p g f x h l =
    let after = revoked_done _ t (n.unassign items) h in
    ack_missing p g f t x
      (ap (λ (z : Assignments). lookup p z.partitions) after ∙ gone n.cooperative items s p l)
