-- ===== src/Pool/Priority.antt =====
-- src/runtime/pool/queuedpool.rs, the `Priority` variant of `PendingQueue`: an ordered map from
-- (priority, task id) to tasks, with a hash map from task ids to the keys. The `BTreeMap` is an
-- association list in the order of its keys. An operation's `none` is a panic of an `unwrap`.
pub mod Order
pub mod Invariant
pub mod Tasks
use rustservicelib.Base.{
  ℕ, List, [], ◌∷◌, Option, none, some, Bool, true, false, ◌==◌, nat_eq, if◌then◌else◌, lookup,
  insert, remove, length, ◌>>=◌, ltb, Eq, ◌&&◌, ◌||◌, ◌↔◌, ◌≡◌, arith,
}
use rustservicelib.Base.Int.{ℤ, negsuc, ltb_ℤ, int_eq}

-- `type Key = (i32, u64)`, compared in this order.
pub record Key : Type 0 where
  pub priority : ℤ
  pub id : ℕ

abbrev key_beq : Key → Key → Bool
key_beq a b = a.priority == b.priority && a.id == b.id

pub key_beq_iff : (a b : Key) → (key_beq a b ≡ true) ↔ (a ≡ b)
key_beq_iff a b = ground (arith, int_eq.beq_iff a.priority b.priority)

instance abbrev pub key_eq : Eq Key
key_eq = record { beq = key_beq; beq_iff = key_beq_iff }

unfoldable pub key_lt : Key → Key → Bool
key_lt a b = ltb_ℤ a.priority b.priority || (a.priority == b.priority && ltb a.id b.id)

-- `i32::MIN`.
abbrev pub i32_min : ℤ
i32_min = negsuc 2147483647

pub record Priority {ℓ} (E : Type ℓ) : Type ℓ where
  pub entries : List (Key × E)
  pub positions : List (ℕ × Key)

module _ {ℓ} {E : Type ℓ} where
  -- `BTreeMap::insert`.
  unfoldable pub ordered_insert : Key → E → List (Key × E) → List (Key × E)
  ordered_insert k v [] = (k, v) ∷ []
  ordered_insert k v ((j, w) ∷ m) =
      if k == j
      then (k, v) ∷ m
      else if key_lt k j
      then (k, v) ∷ (j, w) ∷ m
      else (j, w) ∷ ordered_insert k v m

  unfoldable pub new : Priority E
  new = record { entries = []; positions = [] }

  unfoldable pub len : Priority E → ℕ
  len q = length q.entries

  unfoldable pub push : ℕ → ℤ → E → Priority E → Priority E
  push id priority entry q =
      let key : Key = record { priority = priority; id = id } in
      record { entries = ordered_insert key entry q.entries; positions = insert id key q.positions }

  abbrev pop_first : List (Key × E) → List (ℕ × Key) → Option (ℕ × E) × Priority E
  pop_first [] ps = (none, record { entries = []; positions = ps })
  pop_first ((k, e) ∷ m) ps = (some (k.id, e), record { entries = m; positions = remove k.id ps })

  unfoldable pub pop : Priority E → Option (ℕ × E) × Priority E
  pop q = pop_first q.entries q.positions

  abbrev promote_key : ℕ → Option Key → Priority E → Option (Bool × Priority E)
  promote_key id none q = some (false, q)
  promote_key id (some key) q = lookup key q.entries >>= λ entry.
      (let key' : Key = record { priority = i32_min; id = key.id } in
        some (
          true,
          record {
            entries = ordered_insert key' entry (remove key q.entries);
            positions = insert id key' q.positions;
          },
        ))

  unfoldable pub promote : ℕ → Priority E → Option (Bool × Priority E)
  promote id q = promote_key id (lookup id q.positions) q
