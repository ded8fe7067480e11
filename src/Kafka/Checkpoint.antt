-- ===== src/Kafka/Checkpoint.antt =====
-- src/datasource/kafka/checkpoint.rs: the partitions that are assigned to the source, each with the
-- generation and the context of its assignment. A context is its number; the state keeps which are
-- cancelled. The calls of rdkafka and of the application are the fields of `Native`.
pub mod Items
pub mod Fence
pub mod Rebalance
pub mod Failure
use Prim.Native.String.{String}
use rustservicelib.Base.{
  ℕ, suc, ◌+◌, List, [], ◌∷◌, Option, none, some, Bool, true, false, ◌==◌, nat_eq, string_eq,
  if◌then◌else◌, lookup, insert, remove, ◌||◌, ◌&&◌, not, is_some,
}
use rustservicelib.Base.Int.{ℤ, is_negative, ltb_ℤ, int_eq}

pub data HandlerError : Type 0 where
  negative_checkpoint : HandlerError
  revoked_assignment : HandlerError
  owner_cancelled : HandlerError
  recovery_mode_changed : HandlerError
  unexpected_topic : HandlerError
  partition_not_covered : HandlerError
  outside_log_bounds : HandlerError
  restoration_cancelled : HandlerError
  rebalance_failed : HandlerError
  native_error : String → HandlerError

pub data HandlerResult {ℓ} (A : Type ℓ) : Type ℓ where
  done : A → HandlerResult A
  failed : HandlerError → HandlerResult A

infixl 5 ◌>>=◌
abbrev pub ◌>>=◌ {ℓ κ} :
    {S : Type ℓ} {T : Type κ} → HandlerResult S → (S → HandlerResult T) → HandlerResult T
failed e >>= f = failed e
done s >>= f = f s

-- An element of a `TopicPartitionList`.
pub record Item : Type 0 where
  pub topic : String
  pub partition : ℤ
  pub offset : Option ℤ

-- `Assignments`, with the contexts that are cancelled and whether the owner of all of them is.
pub record Assignments : Type 0 where
  pub partitions : List (ℤ × (ℕ × ℕ))
  pub revision : ℕ
  pub error : Option HandlerError
  pub is_failed : Bool
  pub cancelled : List ℕ
  pub owner : Bool
  pub next_context : ℕ

-- What the calls of one rebalance answer, and whether the owner is cancelled while they run.
pub record Native : Type 0 where
  pub cooperative : Bool
  pub restore : HandlerResult (Option (List (ℤ × ℤ)))
  pub watermarks : ℤ → HandlerResult (ℤ × ℤ)
  pub set_offset : ℤ → HandlerResult (Unit {0})
  pub assign : List Item → HandlerResult (Unit {0})
  pub unassign : List Item → HandlerResult (Unit {0})
  pub owner_meanwhile : Bool

pub data RebalanceEvent : Type 0 where
  assigns : RebalanceEvent
  revokes : RebalanceEvent
  other_event : RebalanceEvent

abbrev pub any_negative : List (ℤ × ℤ) → Bool
any_negative [] = false
any_negative ((p, n) ∷ offsets) = is_negative p || is_negative n || any_negative offsets

unfoldable pub validate : Option (List (ℤ × ℤ)) → HandlerResult (Unit {0})
validate none = done tt
validate (some offsets) = if any_negative offsets then failed negative_checkpoint else done tt

unfoldable pub new : Assignments
new = record {
  partitions = [];
  revision = 0;
  error = none;
  is_failed = false;
  cancelled = [];
  owner = false;
  next_context = 0;
}

abbrev pub elem : ℕ → List ℕ → Bool
elem c [] = false
elem c (d ∷ cs) = d == c || elem c cs

abbrev pub is_cancelled : ℕ → Assignments → Bool
is_cancelled c s = s.owner || elem c s.cancelled

abbrev pub is_generation : ℕ → Assignments → Option (ℕ × ℕ) → Bool
is_generation g s none = false
is_generation g s (some (h, c)) = h == g && not (is_cancelled c s)

-- `Assignments::current`.
unfoldable pub current : ℤ → ℕ → Assignments → Bool
current p g s = is_generation g s (lookup p s.partitions)

-- `Assignments::acknowledge`, with what `apply` works on.
unfoldable pub acknowledge {ℓ κ} :
    {N : Type ℓ} {T : Type κ}
    → ℤ
    → ℕ
    → (N → HandlerResult T × N)
    → Assignments
    → N
    → HandlerResult T × N
acknowledge p g apply s n =
    if s.is_failed || not (current p g s) then (failed revoked_assignment, n) else apply n

abbrev pub cancel_values : List (ℤ × (ℕ × ℕ)) → List ℕ → List ℕ
cancel_values [] cs = cs
cancel_values ((p, (g, c)) ∷ ps) cs = c ∷ cancel_values ps cs

abbrev pub first_error : HandlerError → Option HandlerError → Option HandlerError
first_error e none = some e
first_error e (some old) = some old

-- `Assignments::take_error`.
unfoldable pub take_error : Assignments → Option HandlerError × Assignments
take_error s = (s.error, record s { error = none })

-- `Assignments::fail`.
unfoldable pub fail : HandlerError → Assignments → Assignments
fail e s = record s {
  error = first_error e s.error;
  cancelled = cancel_values s.partitions s.cancelled;
  is_failed = true;
}

-- `ctx.cancel()` on all values and `states.clear()`.
abbrev pub clear_all : Assignments → Assignments
clear_all s = record s { partitions = []; cancelled = cancel_values s.partitions s.cancelled }

abbrev pub remove_one : ℤ → Option (ℕ × ℕ) → Assignments → Assignments
remove_one p none s = s
remove_one p (some (g, c)) s = record s {
  partitions = remove p s.partitions;
  cancelled = c ∷ s.cancelled;
}

-- The loop that removes the listed partitions and cancels their contexts.
unfoldable pub remove_listed : List Item → Assignments → Assignments
remove_listed [] s = s
remove_listed (i ∷ is) s =
    remove_listed is (remove_one i.partition (lookup i.partition s.partitions) s)

-- The loop that enters the listed partitions under a generation, each with a child context.
unfoldable pub insert_listed : ℕ → List Item → Assignments → Assignments
insert_listed g [] s = s
insert_listed g (i ∷ is) s = insert_listed g is (record s {
  partitions = insert i.partition (g, s.next_context) s.partitions;
  next_context = suc s.next_context;
})

abbrev pub check_bounds : Native → Item → ℤ → HandlerResult Item
check_bounds n item next = n.watermarks item.partition >>= λ w.
    if is_negative w.0 || ltb_ℤ next w.0 || ltb_ℤ w.1 next
    then failed outside_log_bounds
    else (n.set_offset next >>= λ u. done (record item { offset = some next }))

abbrev pub check_covered : Native → Item → Option ℤ → HandlerResult Item
check_covered n item none = failed partition_not_covered
check_covered n item (some next) = check_bounds n item next

abbrev pub check_offset : Native → Item → Option (List (ℤ × ℤ)) → HandlerResult Item
check_offset n item none = done item
check_offset n item (some offsets) = check_covered n item (lookup item.partition offsets)

unfoldable pub check_item : String → Native → Option (List (ℤ × ℤ)) → Item → HandlerResult Item
check_item topic n offsets item =
    if item.topic == topic then check_offset n item offsets else failed unexpected_topic

-- The loop that validates all partitions.
unfoldable pub check_items :
    String → Native → Option (List (ℤ × ℤ)) → List Item → HandlerResult (List Item)
check_items topic n offsets [] = done []
check_items topic n offsets (i ∷ is) =
    check_item topic n offsets i >>= λ j. (check_items topic n offsets is >>= λ js. done (j ∷ js))

abbrev pub same : Bool → Bool → Bool
same a b = if a then b else not b

abbrev pub checked : String → Bool → Native → List Item → HandlerResult (List Item)
checked topic restoring n items = n.restore >>= λ offsets.
    (validate offsets >>= λ u.
    (if same (is_some offsets) restoring
      then check_items topic n offsets items
      else failed recovery_mode_changed))

abbrev pub entered :
    List Item → Assignments → HandlerResult (Unit {0}) → HandlerResult (Unit {0}) × Assignments
entered items t (failed e) = (failed e, t)
entered items t (done u) =
    (done tt, insert_listed (suc t.revision) items (record t { revision = suc t.revision }))

abbrev pub assigned :
    Native
    → List Item
    → Assignments
    → HandlerResult (List Item)
    → HandlerResult (Unit {0}) × Assignments
assigned n items s (failed e) = (failed e, s)
assigned n items s (done list) =
    if s.owner
    then (failed restoration_cancelled, s)
    else entered list (remove_listed list (if n.cooperative then s else clear_all s))
        (n.assign list)

-- The arm of `apply` that assigns partitions.
unfoldable pub assign_partitions :
    String → Bool → Native → List Item → Assignments → HandlerResult (Unit {0}) × Assignments
assign_partitions topic restoring n items s =
    if s.owner || s.is_failed
    then (failed owner_cancelled, s)
    else assigned n items (record s { owner = n.owner_meanwhile }) (checked topic restoring n items)

abbrev pub revoked : Assignments → HandlerResult (Unit {0}) → HandlerResult (Unit {0}) × Assignments
revoked t (failed e) = (failed e, t)
revoked t (done u) = (done tt, record t { revision = suc t.revision })

-- The arm that revokes them.
unfoldable pub revoke_partitions :
    Native → List Item → Assignments → HandlerResult (Unit {0}) × Assignments
revoke_partitions n items s =
    revoked (if n.cooperative then remove_listed items s else clear_all s) (n.unassign items)

-- `CheckpointContext::apply`.
unfoldable pub apply :
    String
    → Bool
    → Native
    → RebalanceEvent
    → List Item
    → Assignments
    → HandlerResult (Unit {0}) × Assignments
apply topic restoring n assigns items s = assign_partitions topic restoring n items s
apply topic restoring n revokes items s = revoke_partitions n items s
apply topic restoring n other_event items s = (failed rebalance_failed, s)

abbrev pub settled : HandlerResult (Unit {0}) × Assignments → Assignments
settled (done u, s) = s
settled (failed e, s) = fail e s

-- `CheckpointContext::rebalance`.
unfoldable pub rebalance :
    String → Bool → Native → RebalanceEvent → List Item → Assignments → Assignments
rebalance topic restoring n ev items s = settled (apply topic restoring n ev items s)
