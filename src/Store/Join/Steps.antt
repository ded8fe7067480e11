-- ===== src/Store/Join/Steps.antt =====
-- The steps of src/runtime/store/hashmap.rs in any order: each call and each expiry task moves by one
-- locked region at a time. `none` is a panic. A step that has to wait changes nothing.
use rustservicelib.Base.{
  ℕ, ◌+◌, List, [], ◌∷◌, ◌++◌, Option, none, some, Bool, true, ◌==◌, Eq, nat_eq, ltb, leb, length,
  get_elem?, if◌then◌else◌, not, ◌||◌, modify_at, is_some, map_option, ◌>>=◌,
}
use rustservicelib.Store.Join.{
  MessageContext, Entry, Stage, Call, Watch, Timer, Storage, Seen, admitting, waiting, invoking,
  retiring, removing, returned, sleeping, awake, calling, ended, answered, expired_group,
  is_expired, ttl_of, accept, arm_expiry, answer, cancel_expiry, go, to_stage, to_watch, live_entry,
  admitted, remove_if_same,
}

pub data Step {ℓ κ} (K : Type ℓ) (A : Type κ) : Type (ℓ ⊔ κ) where
  -- A call with its arguments and the configuration it reads: the time to live and its renewal.
  starts : MessageContext → K → ℕ → A → ℕ → ℕ → Bool → Step K A
  -- A call moves. The flag is what its callback answers, where it is in its callback.
  moves : ℕ → Bool → Step K A
  -- An expiry task moves. One that sleeps on a context with a deadline moves when that is cancelled.
  wakes : ℕ → Step K A
  ticks : ℕ → Step K A

abbrev pub Outcome {ℓ κ} : (K : Type ℓ) (A : Type κ) → Type (ℓ ⊔ κ)
Outcome K A = Option (List (Seen K A) × Storage K A)

-- The entry of a group whose expiry is claimed.
abbrev pub claim {ℓ} : {A : Type ℓ} → Entry A → Entry A
claim e = record e { item = record e.item { processed = true; expiry = none } }

-- A deadline that was moved behind the clock, for a task that does not wait for its context.
abbrev pub renewed {ℓ κ} : {K : Type ℓ} {A : Type κ} → ℕ → Timer K → Entry A → Option ℕ
renewed now w e =
    if is_some w.context.deadline
    then none
    else e.deadline >>= λ deadline. if ltb now deadline then some deadline else none

-- What is done once a lock is free, and what while it is held.
abbrev pub lock_free {ℓ} : {B : Type ℓ} → Option ℕ → B → B → B
lock_free none waits works = works
lock_free (some other) waits works = waits

module _ {ℓ κ} {K : Type ℓ} {A : Type κ} where
  abbrev pub quiet : Storage K A → Outcome K A
  quiet s = some ([], s)

  unfoldable pub start_call : MessageContext → K → ℕ → A → ℕ → ℕ → Bool → Storage K A → Storage K A
  start_call context k index value callback configured renew s = record s {
    calls =
        s.calls
        ++ record {
          context = context;
          key = k;
          index = index;
          value = value;
          callback = callback;
          effective_ttl = ttl_of s.now context configured;
          renew_ttl = renew;
          stage = admitting;
        }
          ∷ [];
  }

  abbrev pub accepted : ℕ → Call K A → ℕ → Storage K A → List (Timer K) → Storage K A
  accepted call c i s timers = record s {
    entries = modify_at i (accept call (length s.timers) c) s.entries;
    calls = modify_at call (go (invoking i)) s.calls;
    timers = timers;
  }

  -- The lock of the entry is free: the value enters the group, or the entry is to be retired.
  abbrev pub under_lock : ℕ → Call K A → ℕ → Entry A → Storage K A → Option (Storage K A)
  under_lock call c i e s =
      if e.item.processed || is_expired s.now e.deadline
      then some (to_stage call (retiring i) s)
      else map_option (accepted call c i s) (arm_expiry i c e s.timers)

  unfoldable pub deliver : ℕ → Call K A → ℕ → Storage K A → Option (Storage K A)
  deliver call c i s = elim (get_elem? s.entries i) [
    | none ↦ some s
    | some e ↦ lock_free e.holder (some s) (under_lock call c i e s)
  ]

  unfoldable pub finish : ℕ → Call K A → ℕ → Bool → Storage K A → Storage K A
  finish call c i processed s = record s {
    entries = modify_at i (answer s.now c processed) s.entries;
    calls = modify_at call (go (if processed then removing i else returned)) s.calls;
    timers = elim (get_elem? s.entries i) [
      | none ↦ s.timers
      | some e ↦ cancel_expiry processed e.item.expiry s.timers
    ];
  }

  abbrev pub claim_expiry :
      ℕ → Timer K → Entry A → Storage K A → Option ℕ → List (Seen K A) × Storage K A
  claim_expiry t w e s (some deadline) = (
    [],
    record s {
      timers =
          modify_at t (λ (v : Timer K). record v { deadline = deadline; watch = sleeping })
            s.timers;
    },
  )
  claim_expiry t w e s none = (
    expired_group w.item e.item.callback e.item.context w.key e.item.values ∷ [],
    record s {
      entries = modify_at w.item claim s.entries;
      timers = modify_at t (λ (v : Timer K). record v { watch = calling }) s.timers;
    },
  )

  abbrev pub under_lock_timer : ℕ → Timer K → Entry A → Storage K A → List (Seen K A) × Storage K A
  under_lock_timer t w e s =
      if e.item.processed || not (e.item.generation == w.generation)
      then ([], to_watch t ended s)
      else claim_expiry t w e s (renewed s.now w e)

  unfoldable pub expire : ℕ → Timer K → Storage K A → List (Seen K A) × Storage K A
  expire t w s = elim (get_elem? s.entries w.item) [
    | none ↦ ([], s)
    | some e ↦ lock_free e.holder ([], s) (under_lock_timer t w e s)
  ]

  unfoldable pub wake : ℕ → Timer K → Storage K A → Storage K A
  wake t w s =
      if w.cancelled
      then to_watch t ended s
      else if is_some w.context.deadline || leb w.deadline s.now
      then to_watch t awake s
      else s

  module _ ⦃e : Eq K⦄ where
    unfoldable pub move : ℕ → Bool → Call K A → Stage → Storage K A → Outcome K A
    move call processed c admitting s = quiet (admitted call c (live_entry c.key s) s)
    move call processed c (waiting i) s = deliver call c i s >>= quiet
    move call processed c (invoking i) s =
        some (answered i processed ∷ [], finish call c i processed s)
    move call processed c (retiring i) s =
        quiet (record (to_stage call admitting s) { items = remove_if_same c.key i s.items })
    move call processed c (removing i) s =
        quiet (record (to_stage call returned s) { items = remove_if_same c.key i s.items })
    move call processed c returned s = quiet s

    unfoldable pub move_timer : ℕ → Timer K → Watch → Storage K A → List (Seen K A) × Storage K A
    move_timer t w sleeping s = ([], wake t w s)
    move_timer t w awake s = expire t w s
    move_timer t w calling s =
        ([], record (to_watch t ended s) { items = remove_if_same w.key w.item s.items })
    move_timer t w ended s = ([], s)

    unfoldable pub step : Step K A → Storage K A → Outcome K A
    step (starts context k index value callback configured renew) s =
        quiet (start_call context k index value callback configured renew s)
    step (moves call processed) s = elim (get_elem? s.calls call) [
      | none ↦ quiet s
      | some c ↦ move call processed c c.stage s
    ]
    step (wakes t) s = elim (get_elem? s.timers t) [
      | none ↦ quiet s
      | some w ↦ some (move_timer t w w.watch s)
    ]
    step (ticks n) s = quiet (record s { now = s.now + n })

    -- The steps in order, and all that the callbacks saw.
    unfoldable pub run : List (Step K A) → Storage K A → Outcome K A
    run [] s = quiet s
    run (x ∷ xs) s = step x s >>= λ r. run xs r.1 >>= λ q. some (r.0 ++ q.0, q.1)
