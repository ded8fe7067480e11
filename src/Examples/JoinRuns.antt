-- ===== src/Examples/JoinRuns.antt =====
-- Runs of the join storage: two sides of a key that meet, and a value that comes while the group ends.
use Prim.Native.String.{String}
use rustservicelib.Base.{
  ℕ, List, [], ◌∷◌, ◌++◌, none, some, true, false, ◌==◌, nat_eq, ◌≡◌, refl, ◌⊎◌, inl, get_elem?,
  lookup, insert, remove, modify_at, string_eq, some_eq, ap, ◌∙◌, sym,
}
use rustservicelib.Store.Join.{
  MessageContext, Entry, Storage, Seen, new, is_expired, resize, push_value, ttl_of, fresh, accept,
  arm_expiry, answer, cancel_expiry, live_entry, remove_if_same, is_empty,
}
use rustservicelib.Store.Join.Steps.{
  Step, Outcome, starts, moves, wakes, ticks, start_call, deliver, finish, expire, wake, move,
  move_timer, step, run,
}
use rustservicelib.Store.Join.Locks.{run-IsLocked}
use rustservicelib.Store.Join.Once.{completions, completed_once}
use rustservicelib.Store.Join.Groups.{in_groups, from_calls, values_conserved}
use rustservicelib.Store.Join.Final.{ended_final}
use rustservicelib.Store.Join.Evict.{eviction_safe}
use rustservicelib.Store.Join.Alone.{Ends, call_returns}

abbrev plain : MessageContext
plain = record { id = 1; deadline = none }

abbrev outcome_of : Outcome ℕ String → List (Seen ℕ String) × Storage ℕ String
outcome_of none = ([], record { items = []; entries = []; calls = []; timers = []; now = 0 })
outcome_of (some r) = r

-- The left value enters, its callback waits for the right one, and a second call looks up the group.
abbrev meeting : List (Step ℕ String)
meeting =
    starts plain 7 0 "left" 1 10 true
    ∷ moves 0 false
    ∷ moves 0 false
    ∷ moves 0 false
    ∷ starts plain 7 1 "right" 1 10 true
    ∷ starts plain 7 0 "late" 1 10 true
    ∷ moves 1 true
    ∷ moves 2 true
    ∷ moves 1 true
    ∷ []

-- The second call answers that the group is processed.
abbrev joining : List (Step ℕ String)
joining = meeting ++ moves 1 true ∷ []

-- The third finds a group that has ended, retires it, and starts another.
abbrev retrying : List (Step ℕ String)
retrying =
    moves 2 true
    ∷ moves 2 true
    ∷ moves 2 true
    ∷ moves 2 true
    ∷ moves 1 true
    ∷ ticks 20
    ∷ wakes 1
    ∷ []

abbrev after_joining : List (Seen ℕ String) × Storage ℕ String
after_joining = outcome_of (run joining new)

run-joining : run joining new ≡ some after_joining
unfolding run step move start_call deliver finish live_entry remove_if_same new resize push_value
    ttl_of fresh accept arm_expiry answer cancel_expiry is_expired lookup insert remove modify_at
run-joining = refl

abbrev after_meeting : List (Seen ℕ String) × Storage ℕ String
after_meeting = outcome_of (run meeting new)

abbrev after_retrying : List (Seen ℕ String) × Storage ℕ String
after_retrying = outcome_of (run retrying after_joining.1)

abbrev met : Entry String
met = record {
  item = record {
    values = ("left" ∷ []) ∷ ("right" ∷ []) ∷ [];
    processed = true;
    generation = 1;
    context = plain;
    callback = 1;
    expiry = none;
  };
  holder = none;
  deadline = some 10;
}

run-IsLocked_example :
    (e : Entry String) × (get_elem? after_meeting.1.entries 0 ≡ some e)
    × (e.holder ≡ some 1)
    × (e.item.processed ≡ false)
unfolding run step move start_call deliver finish live_entry remove_if_same new resize push_value
    ttl_of fresh accept arm_expiry answer cancel_expiry is_expired lookup insert remove modify_at
run-IsLocked_example = run-IsLocked meeting after_meeting.1 after_meeting.0 refl 1 _ 0 refl refl

completed_once_example : completions 0 after_joining.0 ≡ 1
unfolding run step move start_call deliver finish live_entry remove_if_same new resize push_value
    ttl_of fresh accept arm_expiry answer cancel_expiry is_expired lookup insert remove modify_at
completed_once_example =
    completed_once joining after_joining.1 after_joining.0 0 met run-joining refl

values_conserved_example :
    in_groups 0 (λ v. v == "left") after_joining.1.entries
    ≡ from_calls 0 (λ v. v == "left") after_joining.1.calls
values_conserved_example =
    values_conserved joining after_joining.1 after_joining.0 0 (λ v. v == "left") run-joining

ended_final_example :
    (d : Entry String) × (get_elem? after_retrying.1.entries 0 ≡ some d)
    × (d.item.processed ≡ true)
    × (d.item.values ≡ met.item.values)
unfolding run step move start_call deliver finish live_entry remove_if_same new resize push_value
    ttl_of fresh accept arm_expiry answer cancel_expiry is_expired lookup insert remove modify_at
    expire wake move_timer
ended_final_example =
    ended_final joining retrying after_joining.1 after_retrying.1 after_joining.0 after_retrying.0 0
      met run-joining refl refl refl

eviction_safe_example :
    (lookup 7 (outcome_of (step (moves 1 true) after_joining.1)).1.items ≡ some 0)
    ⊎ ((e : Entry String) × (get_elem? after_joining.1.entries 0 ≡ some e)
        × ((e.item.processed ≡ true) ⊎ (is_expired after_joining.1.now e.deadline ≡ true)))
unfolding run step move start_call deliver finish live_entry remove_if_same new resize push_value
    ttl_of fresh accept arm_expiry answer cancel_expiry is_expired lookup insert remove modify_at
eviction_safe_example =
    eviction_safe joining (moves 1 true) after_joining.1
      (outcome_of (step (moves 1 true) after_joining.1)).1 after_joining.0 [] 7 0 run-joining refl
      refl

-- The second call before it looks up its group, which is open.
abbrev second_starts : List (Step ℕ String)
second_starts =
    starts plain 7 0 "left" 1 10 true
    ∷ moves 0 false
    ∷ moves 0 false
    ∷ moves 0 false
    ∷ starts plain 7 1 "right" 1 10 true
    ∷ []

abbrev before_second : Storage ℕ String
before_second = (outcome_of (run second_starts new)).1

abbrev half : Entry String
half = record {
  item = record {
    values = ("left" ∷ []) ∷ [];
    processed = false;
    generation = 1;
    context = plain;
    callback = 1;
    expiry = some 0;
  };
  holder = none;
  deadline = some 10;
}

call_returns_example : Ends 7 1 true before_second
unfolding run step move start_call deliver finish live_entry remove_if_same new resize push_value
    ttl_of fresh accept arm_expiry answer cancel_expiry is_expired lookup insert remove modify_at
call_returns_example = call_returns 1 true before_second _ refl refl (λ i e kept at.
    let first : 0 ≡ i = some_eq kept in
    let here : half ≡ e = some_eq (ap (get_elem? before_second.entries) first ∙ at) in
    (
      ap (λ (x : Entry String). x.holder) (sym here),
      inl (ap (λ (x : Entry String). is_empty x.item.values) (sym here)),
    ))

-- A call with no time to live makes an entry without a deadline. A call whose context has a deadline
-- gets the lock of that entry first, and panics.
hasty_panics :
    run
      (starts plain 7 0 "slow" 1 0 false
        ∷ starts (record { id = 2; deadline = some 5 }) 7 0 "hasty" 1 0 false
        ∷ moves 0 false
        ∷ moves 1 false
        ∷ moves 1 false
        ∷ [])
      (new {K = ℕ} {A = String})
    ≡ none
unfolding run step move start_call deliver finish live_entry remove_if_same new resize push_value
    ttl_of fresh accept arm_expiry answer cancel_expiry is_expired lookup insert remove modify_at
hasty_panics = refl
