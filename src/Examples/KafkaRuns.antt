-- ===== src/Examples/KafkaRuns.antt =====
-- A Kafka source that restores partition 2 from its checkpoint, loses it, and gets it back.
use rustservicelib.Base.{
  ℕ, suc, ◌≤◌, List, [], ◌∷◌, Option, none, some, true, false, nat_eq, lookup, insert, remove,
  arith, ◌≡◌, refl, ◌⊎◌, is_some,
}
use rustservicelib.Base.Int.{ℤ, pos, int_eq}
use rustservicelib.Kafka.Checkpoint.{
  HandlerError, HandlerResult, done, failed, Item, Assignments, Native, assigns, revokes,
  other_event, rebalance_failed, revoked_assignment, validate, new, acknowledge, apply, rebalance,
  remove_listed, insert_listed, check_item, check_items, assign_partitions, revoke_partitions,
  is_cancelled,
}
use rustservicelib.Kafka.Checkpoint.Items.{AllChecked}
use rustservicelib.Kafka.Checkpoint.Fence.{Inv, assign_fences, assign_in_log, revoke_fences}
use rustservicelib.Kafka.Checkpoint.Rebalance.{rebalance-Inv}
use rustservicelib.Kafka.Checkpoint.Failure.{after, takes_error, rebalances, rebalance_fails}

abbrev native : Native
native = record {
  cooperative = true;
  restore = done (some ((pos 2, pos 40) ∷ []));
  watermarks = λ p. done (pos 10, pos 50);
  set_offset = λ o. done tt;
  assign = λ list. done tt;
  unassign = λ list. done tt;
  owner_meanwhile = false;
}

abbrev partition_two : List Item
partition_two = record { topic = "orders"; partition = pos 2; offset = none } ∷ []

abbrev first_assigned : Assignments
first_assigned = record {
  partitions = (pos 2, (1, 0)) ∷ [];
  revision = 1;
  error = none;
  is_failed = false;
  cancelled = [];
  owner = false;
  next_context = 1;
}

abbrev again_assigned : Assignments
again_assigned = record first_assigned {
  partitions = (pos 2, (2, 1)) ∷ [];
  revision = 2;
  cancelled = 0 ∷ [];
  next_context = 2;
}

abbrev revoked_two : Assignments
revoked_two = record first_assigned { partitions = []; revision = 2; cancelled = 0 ∷ [] }

-- What an acknowledgement would store.
abbrev store : ℕ → HandlerResult (Unit {0}) × ℕ
store n = (done tt, suc n)

assigned_first : apply "orders" true native assigns partition_two new ≡ (done tt, first_assigned)
unfolding apply assign_partitions validate check_items check_item remove_listed insert_listed lookup
    insert remove new
assigned_first = refl

assigned_again :
    apply "orders" true native assigns partition_two first_assigned ≡ (done tt, again_assigned)
unfolding apply assign_partitions validate check_items check_item remove_listed insert_listed lookup
    insert remove
assigned_again = refl

revoked_after :
    apply "orders" true native revokes partition_two first_assigned ≡ (done tt, revoked_two)
unfolding apply revoke_partitions remove_listed lookup remove
revoked_after = refl

failed_other :
    apply "orders" true native other_event [] first_assigned
    ≡ (failed rebalance_failed, first_assigned)
unfolding apply
failed_other = refl

assign_fences_example :
    (2 ≡ suc 1)
    × ((c : ℕ) × (lookup (pos 2) again_assigned.partitions ≡ some (suc 1, c)))
    × (acknowledge (pos 2) 1 store again_assigned 7 ≡ (failed revoked_assignment, 7))
assign_fences_example =
    assign_fences "orders" true native partition_two first_assigned again_assigned (pos 2) 1 store 7
      assigned_again refl (omega arith)

assign_in_log_example :
    (o : Option (List (ℤ × ℤ))) × (list : List Item) × (native.restore ≡ done o)
    × (validate o ≡ done tt)
    × (is_some o ≡ true)
    × AllChecked "orders" native o partition_two list
    × (native.assign list ≡ done tt)
assign_in_log_example =
    assign_in_log "orders" true native partition_two new first_assigned assigned_first

revoke_fences_example : acknowledge (pos 2) 1 store revoked_two 7 ≡ (failed revoked_assignment, 7)
revoke_fences_example =
    revoke_fences "orders" true native partition_two first_assigned revoked_two (pos 2) 1 store 7
      revoked_after refl

no_assignments-Inv : Inv new
unfolding new lookup
no_assignments-Inv p x h = cc

rebalance-Inv_example :
    Inv (rebalance "orders" true native assigns partition_two new)
    × (new.revision ≤ (rebalance "orders" true native assigns partition_two new).revision)
rebalance-Inv_example =
    rebalance-Inv "orders" true native assigns partition_two new no_assignments-Inv

rebalance_fails_example :
    let r = rebalance "orders" true native other_event [] first_assigned in
    (((first_assigned.error ≡ none) × (r.error ≡ some rebalance_failed))
      ⊎ ((old : HandlerError) × (first_assigned.error ≡ some old) × (r.error ≡ some old)))
    × ((q : ℤ)
        → (lookup q r.partitions ≡ none)
          ⊎ ((y : ℕ × ℕ) × (lookup q r.partitions ≡ some y) × (is_cancelled y.1 r ≡ true)))
    × (acknowledge
          (pos 2)
          1
          store
          (after (takes_error ∷ rebalances "orders" true native assigns partition_two ∷ []) r)
          7
        ≡ (failed revoked_assignment, 7))
rebalance_fails_example =
    rebalance_fails "orders" true native other_event [] first_assigned first_assigned
      rebalance_failed (takes_error ∷ rebalances "orders" true native assigns partition_two ∷ [])
      (pos 2) 1 store 7 failed_other
