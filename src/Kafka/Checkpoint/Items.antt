-- ===== src/Kafka/Checkpoint/Items.antt =====
-- The loops over the partitions of a rebalance: what they check, remove and enter.
use Prim.Native.String.{String}
use rustservicelib.Base.{
  ℕ, ◌≤◌, List, [], ◌∷◌, Option, none, some, Bool, true, false, ◌==◌, nat_eq, string_eq,
  if◌then◌else◌, lookup, ◌||◌, arith, ◌≡◌, refl, sym, ◌∙◌, ◌⊎◌, inl, inr, Bool-cases, Option-cases,
  lookup-insert, lookup-remove, subst, ap,
}
use rustservicelib.Base.Int.{ℤ, is_negative, ltb_ℤ, int_eq}
use rustservicelib.Kafka.Checkpoint.{
  HandlerError, HandlerResult, done, failed, ◌>>=◌, Item, Assignments, Native, remove_one,
  remove_listed, insert_listed, check_item, check_items, check_bounds, check_offset,
  unexpected_topic, partition_not_covered, outside_log_bounds,
}

abbrev pub listed : ℤ → List Item → Bool
listed p [] = false
listed p (i ∷ is) = i.partition == p || listed p is

-- The generations of the assignments are no newer than the revision.
abbrev pub IsBounded : List (ℤ × (ℕ × ℕ)) → ℕ → Type 0
IsBounded ps r = (p : ℤ) (x : ℕ × ℕ) → lookup p ps ≡ some x → x.0 ≤ r

-- The removal of one partition.
remove_one-lookup :
    (p q : ℤ) (s : Assignments)
    → lookup q (remove_one p (lookup p s.partitions) s).partitions
      ≡ (if p == q then none else lookup q s.partitions)
remove_one-lookup p q s = elim (Option-cases (lookup p s.partitions)) [
  | inl missing ↦ rw missing (elim (Bool-cases (p == q)) [
    | inl same ↦
        rw same (subst (λ k. lookup k s.partitions ≡ none) ((int_eq.beq_iff p q).0 same) missing)
    | inr other ↦ rw other refl
  ])
  | inr ((g, c), found) ↦ rw found (lookup-remove p q s.partitions)
]

pub remove_listed-lookup :
    (is : List Item) (s : Assignments) (p : ℤ) (x : ℕ × ℕ)
    → lookup p (remove_listed is s).partitions ≡ some x
    → (lookup p s.partitions ≡ some x) × (listed p is ≡ false)
unfolding remove_listed
remove_listed-lookup [] s p x h = (h, refl)
remove_listed-lookup (i ∷ is) s p x h =
    let next : Assignments = remove_one i.partition (lookup i.partition s.partitions) s in
    let (before, out) = remove_listed-lookup is next p x h in
    let one = remove_one-lookup i.partition p s in
    elim (Bool-cases (i.partition == p)) [
      | inl same ↦ absurd (clash (sym (one ∙ rw same refl) ∙ before))
      | inr other ↦ (sym (one ∙ rw other refl) ∙ before, rw other out)
    ]
  where
    clash : {y : ℕ × ℕ} → none ≡ some y → ⊥
    clash e = cc

pub insert_listed-other :
    (g : ℕ) (is : List Item) (s : Assignments) (p : ℤ)
    → listed p is ≡ false
    → lookup p (insert_listed g is s).partitions ≡ lookup p s.partitions
unfolding insert_listed
insert_listed-other g [] s p h = refl
insert_listed-other g (i ∷ is) s p h =
    insert_listed-other g is _ p (ground arith)
    ∙ lookup-insert i.partition p (g, s.next_context) s.partitions
    ∙ ground arith

last_listed : (a b : Bool) → b ≡ false → (a || b) ≡ true → a ≡ true
last_listed a b h h' = ground arith

pub insert_listed-listed :
    (g : ℕ) (is : List Item) (s : Assignments) (p : ℤ)
    → listed p is ≡ true
    → (c : ℕ) × (lookup p (insert_listed g is s).partitions ≡ some (g, c))
unfolding insert_listed
insert_listed-listed g [] s p h = cc
insert_listed-listed g (i ∷ is) s p h = elim (Bool-cases (listed p is)) [
  | inl again ↦ insert_listed-listed g is _ p again
  | inr last ↦ (
    s.next_context,
    insert_listed-other g is _ p last
        ∙ lookup-insert i.partition p (g, s.next_context) s.partitions
        ∙ rw (last_listed (i.partition == p) (listed p is) last h) refl,
  )
]

-- A checked partition: its topic is the source's, and a checkpoint is inside the retained log.
pub record IsChecked (topic : String) (n : Native) (offsets : Option (List (ℤ × ℤ))) (i j : Item)
    : Type 0 where
  pub right_topic : i.topic ≡ topic
  pub same_partition : j.partition ≡ i.partition
  pub in_log :
      ((offsets ≡ none) × (j ≡ i))
      ⊎ ((o : List (ℤ × ℤ)) × (next : ℤ) × (low : ℤ) × (high : ℤ) × (offsets ≡ some o)
          × (lookup i.partition o ≡ some next)
          × (n.watermarks i.partition ≡ done (low, high))
          × (is_negative low ≡ false)
          × (ltb_ℤ next low ≡ false)
          × (ltb_ℤ high next ≡ false)
          × (j.offset ≡ some next))

abbrev pub AllChecked : String → Native → Option (List (ℤ × ℤ)) → List Item → List Item → Type 0
AllChecked topic n offsets [] [] = Unit
AllChecked topic n offsets (i ∷ is) (j ∷ js) =
    IsChecked topic n offsets i j × AllChecked topic n offsets is js
AllChecked topic n offsets [] (j ∷ js) = ⊥
AllChecked topic n offsets (i ∷ is) [] = ⊥

pub bind_done {ℓ κ} :
    {S : Type ℓ} {T : Type κ} (m : HandlerResult S) (f : S → HandlerResult T) (t : T)
    → (m >>= f) ≡ done t
    → (s : S) × (m ≡ done s) × (f s ≡ done t)
bind_done (failed e) f t h = cc
bind_done (done s) f t h = (s, refl, h)

then_done {ℓ} :
    {T : Type ℓ} (b : Bool) (e : HandlerError) (m : HandlerResult T) (t : T)
    → (if b then failed e else m) ≡ done t
    → (b ≡ false) × (m ≡ done t)
then_done true e m t h = cc
then_done false e m t h = (refl, h)

three_false : (a b c : Bool) → (a || b || c) ≡ false → (a ≡ false) × (b ≡ false) × (c ≡ false)
three_false a b c h = ground arith

check_bounds_lem :
    (topic : String) (n : Native) (o : List (ℤ × ℤ)) (i j : Item) (next : ℤ)
    → i.topic ≡ topic
    → lookup i.partition o ≡ some next
    → check_bounds n i next ≡ done j
    → IsChecked topic n (some o) i j
check_bounds_lem topic n o i j next t covered h =
    let ((low, high), marks, rest) = bind_done (n.watermarks i.partition) _ j h in
    let (inside, stored) = then_done _ outside_log_bounds _ j rest in
    let (u, _, last) = bind_done (n.set_offset next) _ j stored in
    let (a, b, c) = three_false (is_negative low) (ltb_ℤ next low) (ltb_ℤ high next) inside in
    record {
      right_topic = t;
      same_partition = sym (partition_of last);
      in_log = inr (o, next, low, high, refl, covered, marks, a, b, c, sym (offset_of last));
    }
  where
    partition_of : done (record i { offset = some next }) ≡ done j → i.partition ≡ j.partition
    partition_of e = cc

    offset_of : done (record i { offset = some next }) ≡ done j → some next ≡ j.offset
    offset_of e = cc

check_offset_lem :
    (topic : String) (n : Native) (offsets : Option (List (ℤ × ℤ))) (i j : Item)
    → i.topic ≡ topic
    → check_offset n i offsets ≡ done j
    → IsChecked topic n offsets i j
check_offset_lem topic n none i j t h =
    let same : i ≡ j = cc in
    record {
      right_topic = t;
      same_partition = sym (ap (λ k. k.partition) same);
      in_log = inl (refl, sym same);
    }
check_offset_lem topic n (some o) i j t h = elim (Option-cases (lookup i.partition o)) [
  | inl missing ↦ absurd (no_item (rw missing at h))
  | inr (next, covered) ↦ check_bounds_lem topic n o i j next t covered (rw covered at h)
]
  where
    no_item : failed partition_not_covered ≡ done j → ⊥
    no_item e = cc

check_item-IsChecked :
    (topic : String) (n : Native) (offsets : Option (List (ℤ × ℤ))) (i j : Item)
    → check_item topic n offsets i ≡ done j
    → IsChecked topic n offsets i j
unfolding check_item
check_item-IsChecked topic n offsets i j h = elim (Bool-cases (i.topic == topic)) [
  | inl same ↦
      check_offset_lem topic n offsets i j ((string_eq.beq_iff i.topic topic).0 same) (rw same at h)
  | inr other ↦ absurd (no_item (rw other at h))
]
  where
    no_item : failed unexpected_topic ≡ done j → ⊥
    no_item e = cc

pub check_items-AllChecked :
    (topic : String) (n : Native) (offsets : Option (List (ℤ × ℤ))) (is js : List Item)
    → check_items topic n offsets is ≡ done js
    → AllChecked topic n offsets is js
unfolding check_items
check_items-AllChecked topic n offsets [] [] h = tt
check_items-AllChecked topic n offsets [] (j ∷ js) h = cc
check_items-AllChecked topic n offsets (i ∷ is) js h =
    let (j, one, rest) = bind_done (check_item topic n offsets i) _ js h in
    let (js', more, last) = bind_done (check_items topic n offsets is) _ js rest in
    subst (λ l. AllChecked topic n offsets (i ∷ is) l) (list_of j js' last)
      (
        check_item-IsChecked topic n offsets i j one,
        check_items-AllChecked topic n offsets is js' more,
      )
  where
    list_of : (j : Item) (js' : List Item) → done (j ∷ js') ≡ done js → j ∷ js' ≡ js
    list_of j js' e = cc
