-- ===== src/Store/Rotating.antt =====
-- src/runtime/store/rotatingmap.rs: a hash map in 64 shards, each of two generations. The hash of
-- `RandomState` is a parameter; the boxed slice of shards is a function of the index.
pub mod Shard
pub mod Laws
use rustservicelib.Base.{
  ℕ, ◌+◌, ◌*◌, ◌-◌, ◌^◌, ◌%◌, List, [], ◌∷◌, Option, none, some, Bool, true, false, ◌==◌, Eq,
  nat_eq, if◌then◌else◌, lookup, insert, remove, insert_all, contains_key, length, ◌||◌, ltb, min,
  max, or_else, is_some,
}

pub record Maps {ℓ κ} (K : Type ℓ) (V : Type κ) : Type (ℓ ⊔ κ) where
  pub current : List (K × V)
  pub previous : List (K × V)
  pub high_water_mark : ℕ

pub record RotatingMap {ℓ κ} (K : Type ℓ) (V : Type κ) : Type (ℓ ⊔ κ) where
  pub shards : ℕ → Maps K V
  pub min_capacity : ℕ

-- `RuntimeError::DuplicateKey`, or the map after the call.
pub data SetResult {ℓ} (A : Type ℓ) : Type ℓ where
  ok : A → SetResult A
  duplicate_key : SetResult A

-- `ROTATING_MAP_SHRINK_FACTOR`, `ROTATING_MAP_SHARDS`, `usize::MAX` on a 64-bit target.
abbrev pub shrink_factor : ℕ
shrink_factor = 4

abbrev pub shard_count : ℕ
shard_count = 64

abbrev pub usize_max : ℕ
usize_max = 2 ^ 64 - 1

module _ {ℓ κ} {K : Type ℓ} {V : Type κ} ⦃e : Eq K⦄ where
  unfoldable pub empty_shard : Maps K V
  empty_shard = record { current = []; previous = []; high_water_mark = 0 }

  unfoldable pub shard_get : K → Maps K V → Option V
  shard_get k m = or_else (lookup k m.current) (lookup k m.previous)

  unfoldable pub shard_set : K → V → Maps K V → SetResult (Maps K V)
  shard_set k v m =
      if contains_key k m.current || contains_key k m.previous
      then duplicate_key
      else ok (record m { current = insert k v m.current })

  -- The value, whether it was there before, and the shard.
  abbrev created : K → V → Maps K V → Option V → V × Bool × Maps K V
  created k fresh m (some v) = (v, true, m)
  created k fresh m none = (fresh, false, record m { current = insert k fresh m.current })

  unfoldable pub shard_get_or_create : K → V → Maps K V → V × Bool × Maps K V
  shard_get_or_create k fresh m = created k fresh m (shard_get k m)

  abbrev popped : K → Maps K V → Option V → Option V × Maps K V
  popped k m (some v) = (some v, record m { current = remove k m.current })
  popped k m none = (lookup k m.previous, record m { previous = remove k m.previous })

  unfoldable pub shard_pop : K → Maps K V → Option V × Maps K V
  shard_pop k m = popped k m (lookup k m.current)

  abbrev popped_previous_if : K → (V → Bool) → Maps K V → Option V → Option V × Maps K V
  popped_previous_if k p m none = (none, m)
  popped_previous_if k p m (some v) =
      if p v then (some v, record m { previous = remove k m.previous }) else (none, m)

  abbrev popped_if : K → (V → Bool) → Maps K V → Option V → Option V × Maps K V
  popped_if k p m (some v) =
      if p v then (some v, record m { current = remove k m.current }) else (none, m)
  popped_if k p m none = popped_previous_if k p m (lookup k m.previous)

  unfoldable pub shard_pop_if : K → (V → Bool) → Maps K V → Option V × Maps K V
  shard_pop_if k p m = popped_if k p m (lookup k m.current)

  -- The drain of the previous generation in `rotate_shard`.
  unfoldable pub or_insert_all : List (K × V) → List (K × V) → List (K × V)
  or_insert_all [] m = m
  or_insert_all ((k, v) ∷ xs) m = or_insert_all xs (if contains_key k m then m else insert k v m)

  unfoldable pub rotate_shard : ℕ → Maps K V → Maps K V
  rotate_shard min_capacity m =
      let total = length m.current + length m.previous in
      let should_rotate =
        m.high_water_mark == 0 || ltb (min (total * shrink_factor) usize_max) m.high_water_mark in
      let mark = max m.high_water_mark total in
      if ltb mark min_capacity
      then record m { high_water_mark = mark }
      else if should_rotate
      then record {
        current = [];
        previous = or_insert_all m.previous (insert_all m.current []);
        high_water_mark = total;
      }
      else record m { high_water_mark = mark }

abbrev pub shard_index {ℓ} : {K : Type ℓ} → (K → ℕ) → K → ℕ
shard_index hash k = hash k % shard_count

-- The map: each call goes to the shard of its key.
module _ {ℓ κ} {K : Type ℓ} {V : Type κ} ⦃e : Eq K⦄ (hash : K → ℕ) where
  abbrev pub put_shard : K → Maps K V → RotatingMap K V → RotatingMap K V
  put_shard k m r = record r { shards = λ i. if shard_index hash k == i then m else r.shards i }

  abbrev pub shard_of : K → RotatingMap K V → Maps K V
  shard_of k r = r.shards (shard_index hash k)

  unfoldable pub get : K → RotatingMap K V → Option V
  get k r = shard_get k (shard_of k r)

  abbrev stored : K → RotatingMap K V → SetResult (Maps K V) → SetResult (RotatingMap K V)
  stored k r (ok m) = ok (put_shard k m r)
  stored k r duplicate_key = duplicate_key

  unfoldable pub set : K → V → RotatingMap K V → SetResult (RotatingMap K V)
  set k v r = stored k r (shard_set k v (shard_of k r))

  unfoldable pub get_or_create : K → V → RotatingMap K V → V × Bool × RotatingMap K V
  get_or_create k fresh r =
      let c = shard_get_or_create k fresh (shard_of k r) in (c.0, c.1, put_shard k c.2 r)

  unfoldable pub pop : K → RotatingMap K V → Option V × RotatingMap K V
  pop k r = let c = shard_pop k (shard_of k r) in (c.0, put_shard k c.1 r)

  unfoldable pub pop_if : K → (V → Bool) → RotatingMap K V → Option V × RotatingMap K V
  pop_if k p r = let c = shard_pop_if k p (shard_of k r) in (c.0, put_shard k c.1 r)

module _ {ℓ κ} {K : Type ℓ} {V : Type κ} ⦃e : Eq K⦄ where
  unfoldable pub new : ℕ → RotatingMap K V
  new min_capacity = record { shards = λ i. empty_shard; min_capacity = min_capacity }

  unfoldable pub rotate : RotatingMap K V → RotatingMap K V
  rotate r = record r { shards = λ i. rotate_shard r.min_capacity (r.shards i) }
