-- ===== src/Store/Join.antt =====
-- src/runtime/store/hashmap.rs: the groups of values of a join. A shared entry stands in the heap
-- `entries`, and its number is the identity that `Arc::ptr_eq` compares. Each step of a call and of
-- an expiry task is what it does under one lock. The clock is a number. Callbacks are numbers.
pub mod Cells
pub mod Steps
pub mod Cases
pub mod Changes
pub mod Locks
pub mod Once
pub mod Values
pub mod Groups
pub mod Final
pub mod Doomed
pub mod Retired
pub mod Evict
pub mod Alone
use rustservicelib.Base.{
  ℕ, suc, ◌+◌, ◌-◌, ◌%◌, ◌^◌, List, [], ◌∷◌, ◌++◌, Option, none, some, Bool, true, false, ◌==◌, Eq,
  nat_eq, ltb, leb, length, get_elem?, if◌then◌else◌, ◌&&◌, ◌||◌, modify_at, replicate, lookup,
  insert, remove, not, is_some, or_else, map_option, ◌>>=◌,
}

pub record MessageContext : Type 0 where
  pub id : ℕ
  pub deadline : Option ℕ

pub record Item {ℓ} (A : Type ℓ) : Type ℓ where
  pub values : List (List A)
  pub processed : Bool
  pub generation : ℕ
  pub context : MessageContext
  pub callback : ℕ
  pub expiry : Option ℕ  -- the expiry task whose token it is

pub record Entry {ℓ} (A : Type ℓ) : Type ℓ where
  pub item : Item A
  pub holder : Option ℕ  -- the call that holds the lock of `state` while its callback runs
  pub deadline : Option ℕ

-- Where a call of `join_value_with` is.
pub data Stage : Type 0 where
  admitting : Stage
  waiting : ℕ → Stage  -- for the lock of an entry
  invoking : ℕ → Stage
  retiring : ℕ → Stage  -- removes an entry, then tries again
  removing : ℕ → Stage  -- removes an entry, then returns
  returned : Stage

pub record Call {ℓ κ} (K : Type ℓ) (A : Type κ) : Type (ℓ ⊔ κ) where
  pub context : MessageContext
  pub key : K
  pub index : ℕ
  pub value : A
  pub callback : ℕ
  pub effective_ttl : ℕ
  pub renew_ttl : Bool
  pub stage : Stage

-- Where an expiry task is: asleep, in its callback, or at its end.
pub data Watch : Type 0 where
  sleeping : Watch
  awake : Watch  -- waits for the lock of its entry
  calling : Watch
  ended : Watch

pub record Timer {ℓ} (K : Type ℓ) : Type ℓ where
  pub key : K
  pub item : ℕ
  pub generation : ℕ
  pub deadline : ℕ
  pub context : MessageContext
  pub cancelled : Bool
  pub watch : Watch

pub record Storage {ℓ κ} (K : Type ℓ) (A : Type κ) : Type (ℓ ⊔ κ) where
  pub items : List (K × ℕ)
  pub entries : List (Entry A)
  pub calls : List (Call K A)
  pub timers : List (Timer K)
  pub now : ℕ

-- What the callbacks see: an answer of a call's callback, and the run of an expiry callback.
pub data Seen {ℓ κ} (K : Type ℓ) (A : Type κ) : Type (ℓ ⊔ κ) where
  answered : ℕ → Bool → Seen K A
  expired_group : ℕ → ℕ → MessageContext → K → List (List A) → Seen K A

-- `Entry::expired`.
unfoldable pub is_expired : ℕ → Option ℕ → Bool
is_expired now none = false
is_expired now (some deadline) = leb deadline now

-- `resize_with(len, Vec::new)` of a shorter vector.
unfoldable pub resize {ℓ} : {A : Type ℓ} → ℕ → List (List A) → List (List A)
resize len values = values ++ replicate (len - length values) []

-- The value is pushed at its index.
unfoldable pub push_value {ℓ} : {A : Type ℓ} → ℕ → A → List (List A) → List (List A)
push_value index value values =
    modify_at index (λ l. l ++ value ∷ [])
      (if leb (length values) index then resize (index + 1) values else values)

abbrev pub is_empty {ℓ} : {A : Type ℓ} → List A → Bool
is_empty [] = true
is_empty (x ∷ xs) = false

-- What remains of the context's deadline, or the configured time.
unfoldable pub ttl_of : ℕ → MessageContext → ℕ → ℕ
ttl_of now context configured = elim context.deadline [
  | none ↦ configured
  | some deadline ↦ deadline - now
]

-- `expiry.cancel()` where the answer is that the group is processed.
unfoldable pub cancel_expiry {ℓ} : {K : Type ℓ} → Bool → Option ℕ → List (Timer K) → List (Timer K)
cancel_expiry true (some t) timers = modify_at t (λ w. record w { cancelled = true }) timers
cancel_expiry true none timers = timers
cancel_expiry false expiry timers = timers

unfoldable pub remove_if_same {ℓ} : {K : Type ℓ} ⦃e : Eq K⦄ → K → ℕ → List (K × ℕ) → List (K × ℕ)
remove_if_same k i items = elim (lookup k items) [
  | none ↦ items
  | some j ↦ if j == i then remove k items else items
]

module _ {ℓ κ} {K : Type ℓ} {A : Type κ} where
  unfoldable pub new : Storage K A
  new = record { items = []; entries = []; calls = []; timers = []; now = 0 }

  unfoldable pub fresh : ℕ → Call K A → Entry A
  fresh now c = record {
    item = record {
      values = [];
      processed = false;
      generation = 0;
      context = c.context;
      callback = c.callback;
      expiry = none;
    };
    holder = none;
    deadline = if ltb 0 c.effective_ttl then some (now + c.effective_ttl) else none;
  }

  -- The value of a call enters an entry whose lock it takes. The expiry task it arms is `timer`.
  unfoldable pub accept : ℕ → ℕ → Call K A → Entry A → Entry A
  accept call timer c e = record e {
    holder = some call;
    item =
        if is_empty e.item.values
        then record e.item {
          values = push_value c.index c.value e.item.values;
          generation = (e.item.generation + 1) % 2 ^ 64;
          context = c.context;
          callback = c.callback;
          expiry = if ltb 0 c.effective_ttl then some timer else e.item.expiry;
        }
        else record e.item { values = push_value c.index c.value e.item.values };
  }

  -- The expiry task of a group that starts with a call.
  abbrev pub armed_timer : ℕ → Call K A → Entry A → ℕ → Timer K
  armed_timer i c e deadline = record {
    key = c.key;
    item = i;
    generation = (e.item.generation + 1) % 2 ^ 64;
    deadline = deadline;
    context = c.context;
    cancelled = false;
    watch = sleeping;
  }

  -- The first value of a group with a time to live starts its expiry task. It panics where the entry
  -- has no deadline.
  unfoldable pub arm_expiry : ℕ → Call K A → Entry A → List (Timer K) → Option (List (Timer K))
  arm_expiry i c e timers =
      if is_empty e.item.values && ltb 0 c.effective_ttl
      then map_option (λ deadline. timers ++ armed_timer i c e deadline ∷ []) e.deadline
      else some timers

  -- The callback has answered, and the lock is released.
  unfoldable pub answer : ℕ → Call K A → Bool → Entry A → Entry A
  answer now c processed e = record {
    item = record e.item {
      processed = processed;
      expiry = if processed then none else e.item.expiry;
    };
    holder = none;
    deadline = if not processed && c.renew_ttl then some (now + c.effective_ttl) else e.deadline;
  }

  abbrev pub go : Stage → Call K A → Call K A
  go stage c = record c { stage = stage }

  abbrev pub to_stage : ℕ → Stage → Storage K A → Storage K A
  to_stage call stage s = record s { calls = modify_at call (go stage) s.calls }

  abbrev pub to_watch : ℕ → Watch → Storage K A → Storage K A
  to_watch t watch s = record s {
    timers = modify_at t (λ (w : Timer K). record w { watch = watch }) s.timers;
  }

  module _ ⦃e : Eq K⦄ where
    -- The entry that the map has for a key, unless it has expired.
    unfoldable pub live_entry : K → Storage K A → Option ℕ
    live_entry k s = lookup k s.items >>= λ i.
        get_elem? s.entries i >>= λ e. if is_expired s.now e.deadline then none else some i

    abbrev admitted : ℕ → Call K A → Option ℕ → Storage K A → Storage K A
    admitted call c (some i) s = to_stage call (waiting i) s
    admitted call c none s = record s {
      items = insert c.key (length s.entries) s.items;
      entries = s.entries ++ fresh s.now c ∷ [];
      calls = modify_at call (go (waiting (length s.entries))) s.calls;
    }
