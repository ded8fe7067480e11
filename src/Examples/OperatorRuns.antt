-- ===== src/Examples/OperatorRuns.antt =====
-- A run of an inner join: a left value, a right value, and what the business function is given.
use Prim.Native.String.{String}
use rustservicelib.Base.{
  ◌⊎◌, ℕ, List, [], ◌∷◌, map, none, some, true, false, ◌==◌, nat_eq, ◌≡◌, refl, lookup, insert,
  remove, modify_at, length,
}
use rustservicelib.Store.Join.{
  MessageContext, Entry, Storage, Seen, new, is_expired, resize, push_value, ttl_of, fresh, accept,
  arm_expiry, answer, cancel_expiry, live_entry, remove_if_same,
}
use rustservicelib.Store.Join.Steps.{
  Step, Outcome, moves, start_call, deliver, finish, move, step, run,
}
use rustservicelib.Store.Join.Values.{list_at}
use rustservicelib.Operators.Join.{
  DynValue, JoinFunction, inner, of_left, of_right, consume_left, consume_right, call_function,
  can_call, has_values, downcast_values, downcast_all, downcasts_succeed, WantsOnly,
}

abbrev Value : Type 0
Value = DynValue ℕ String

abbrev plain : MessageContext
plain = record { id = 1; deadline = none }

abbrev both_sides : List (Step ℕ Value)
both_sides =
    consume_left plain 7 30 1 10 false
    ∷ moves 0 false
    ∷ moves 0 false
    ∷ moves 0 false
    ∷ consume_right plain 7 "thirty" 1 10 false
    ∷ moves 1 false
    ∷ moves 1 false
    ∷ []

abbrev outcome_of : Outcome ℕ Value → List (Seen ℕ Value) × Storage ℕ Value
outcome_of none = ([], record { items = []; entries = []; calls = []; timers = []; now = 0 })
outcome_of (some r) = r

abbrev joined : List (Seen ℕ Value) × Storage ℕ Value
joined = outcome_of (run both_sides new)

-- A business function that wants one value of each side.
abbrev pairs : JoinFunction ℕ ℕ String
pairs context key ls rs = (length ls == 1)

abbrev group : Entry Value
group = record {
  item = record {
    values = (of_left 30 ∷ []) ∷ (of_right "thirty" ∷ []) ∷ [];
    processed = false;
    generation = 1;
    context = plain;
    callback = 1;
    expiry = some 0;
  };
  holder = some 1;
  deadline = some 10;
}

group_answers : call_function inner pairs plain 7 group.item.values ≡ some true
unfolding call_function can_call has_values downcast_values downcast_all
group_answers = refl

downcasts_succeed_example :
    (ls : List ℕ) × (rs : List String) × (map of_left ls ≡ list_at 0 group.item.values)
    × (map of_right rs ≡ list_at 1 group.item.values)
    × ((WantsOnly inner ls rs
          × (call_function inner pairs plain 7 group.item.values ≡ some (pairs plain 7 ls rs)))
        ⊎ ((WantsOnly inner ls rs → ⊥)
            × (call_function inner pairs plain 7 group.item.values ≡ some false)))
unfolding run step move start_call deliver finish live_entry remove_if_same new resize push_value
    ttl_of fresh accept arm_expiry answer cancel_expiry is_expired lookup insert remove modify_at
downcasts_succeed_example =
    downcasts_succeed both_sides joined.1 joined.0 0 group inner pairs plain 7 refl
      (refl, (refl, tt)) refl
