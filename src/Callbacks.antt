-- ===== src/Callbacks.antt =====
-- src/datasource/grpc/callback_store.rs: the callbacks of the open calls by their id, with one slot in
-- place of a map as long as there is one id.
use rustservicelib.Base.{
  List, [], ◌∷◌, Option, none, some, ◌==◌, Eq, lookup, insert, remove, if◌then◌else◌, lookup-insert,
  lookup-remove, ◌≡◌, refl, sym, ◌∙◌, inl, inr, Bool-cases, arith,
}

pub data CallbackStore {ℓ κ} (K : Type ℓ) (V : Type κ) : Type (ℓ ⊔ κ) where
  inline : Option (K × V) → CallbackStore K V
  many : List (K × V) → CallbackStore K V

-- The operations of a map.
pub data Operation {ℓ κ} (K : Type ℓ) (V : Type κ) : Type (ℓ ⊔ κ) where
  inserts : K → V → Operation K V
  gets : K → Operation K V
  removes : K → Operation K V

unfoldable pub new {ℓ κ} : {K : Type ℓ} {V : Type κ} → CallbackStore K V
new = inline none

module _ {ℓ κ} {K : Type ℓ} {V : Type κ} ⦃eq : Eq K⦄ where
  -- `CallbackStore::insert`: the callback it replaces, and the store after it.
  unfoldable pub insert_callback : K → V → CallbackStore K V → Option V × CallbackStore K V
  insert_callback id callback (inline none) = (none, inline (some (id, callback)))
  insert_callback id callback (inline (some (key, value))) =
      if key == id
      then (some value, inline (some (key, callback)))
      else (none, many (insert id callback (insert key value [])))
  insert_callback id callback (many m) = (lookup id m, many (insert id callback m))

  unfoldable pub get_callback : K → CallbackStore K V → Option V
  get_callback id (inline none) = none
  get_callback id (inline (some (key, value))) = if key == id then some value else none
  get_callback id (many m) = lookup id m

  -- `CallbackStore::remove`: the callback it took, and the store after it.
  unfoldable pub remove_callback : K → CallbackStore K V → Option V × CallbackStore K V
  remove_callback id (inline none) = (none, inline none)
  remove_callback id (inline (some (key, value))) =
      if key == id then (some value, inline none) else (none, inline (some (key, value)))
  remove_callback id (many m) = (lookup id m, many (remove id m))

  unfoldable pub apply : Operation K V → CallbackStore K V → Option V × CallbackStore K V
  apply (inserts id callback) c = insert_callback id callback c
  apply (gets id) c = (get_callback id c, c)
  apply (removes id) c = remove_callback id c

  unfoldable pub apply_all : List (Operation K V) → CallbackStore K V → List (Option V)
  apply_all [] c = []
  apply_all (x ∷ xs) c = let r = apply x c in r.0 ∷ apply_all xs r.1

  -- A map without a slot, as `std::collections::HashMap`.
  abbrev pub map_apply : Operation K V → List (K × V) → Option V × List (K × V)
  map_apply (inserts id callback) m = (lookup id m, insert id callback m)
  map_apply (gets id) m = (lookup id m, m)
  map_apply (removes id) m = (lookup id m, remove id m)

  unfoldable pub map_apply_all : List (Operation K V) → List (K × V) → List (Option V)
  map_apply_all [] m = []
  map_apply_all (x ∷ xs) m = let r = map_apply x m in r.0 ∷ map_apply_all xs r.1

  abbrev entries : CallbackStore K V → List (K × V)
  entries (inline none) = []
  entries (inline (some p)) = p ∷ []
  entries (many m) = m

  -- A store holds what a map holds.
  abbrev Holds : CallbackStore K V → List (K × V) → Type (ℓ ⊔ κ)
  Holds c m = (id : K) → lookup id (entries c) ≡ lookup id m

  get_callback_lem : (id : K) (c : CallbackStore K V) → get_callback id c ≡ lookup id (entries c)
  unfolding get_callback lookup
  get_callback_lem id (inline none) = refl
  get_callback_lem id (inline (some (key, value))) = refl
  get_callback_lem id (many m) = refl

  apply-entries :
      (x : Operation K V) (c : CallbackStore K V) (j : K)
      → ((apply x c).0 ≡ (map_apply x (entries c)).0)
        × (lookup j (entries (apply x c).1) ≡ lookup j (map_apply x (entries c)).1)
  unfolding apply insert_callback get_callback remove_callback lookup insert remove
  apply-entries (inserts id callback) (inline none) j = (refl, refl)
  apply-entries (inserts id callback) (inline (some (key, value))) j =
      elim (Bool-cases (key == id)) [
        | inl same ↦ ground (arith, same, eq.beq_iff key id)
        | inr apart ↦ ground (arith, apart, eq.beq_iff key id, eq.beq_iff key j, eq.beq_iff id j)
      ]
  apply-entries (inserts id callback) (many m) j = (refl, refl)
  apply-entries (gets id) (inline none) j = (refl, refl)
  apply-entries (gets id) (inline (some (key, value))) j = (refl, refl)
  apply-entries (gets id) (many m) j = (refl, refl)
  apply-entries (removes id) (inline none) j = (refl, refl)
  apply-entries (removes id) (inline (some (key, value))) j = elim (Bool-cases (key == id)) [
    | inl same ↦ ground (arith, same)
    | inr apart ↦ ground (arith, apart)
  ]
  apply-entries (removes id) (many m) j = (refl, refl)

  map_apply-same :
      (x : Operation K V) (m n : List (K × V))
      → ((id : K) → lookup id m ≡ lookup id n)
      → ((map_apply x m).0 ≡ (map_apply x n).0)
        × ((j : K) → lookup j (map_apply x m).1 ≡ lookup j (map_apply x n).1)
  map_apply-same (inserts id callback) m n h =
      (h id, λ j. lookup-insert id j callback m ∙ rw (h j) (sym (lookup-insert id j callback n)))
  map_apply-same (gets id) m n h = (h id, h)
  map_apply-same (removes id) m n h =
      (h id, λ j. lookup-remove id j m ∙ rw (h j) (sym (lookup-remove id j n)))

  apply_all-Holds :
      (xs : List (Operation K V)) (c : CallbackStore K V) (m : List (K × V))
      → Holds c m
      → apply_all xs c ≡ map_apply_all xs m
  unfolding apply_all map_apply_all
  apply_all-Holds [] c m h = refl
  apply_all-Holds (x ∷ xs) c m h =
      let same = map_apply-same x (entries c) m h in
      let first = (apply-entries x c (key_of x)).0 ∙ same.0 in
      let rest =
        apply_all-Holds xs (apply x c).1 (map_apply x m).1
          (λ j. (apply-entries x c j).1 ∙ same.1 j) in
      rw (first, rest) refl
    where
      key_of : Operation K V → K
      key_of (inserts id callback) = id
      key_of (gets id) = id
      key_of (removes id) = id

  -- A new store answers any operations in any order as a hash map does: inserts with the callbacks they
  -- replace, lookups, and removals with the callbacks they take.
  pub answers_as_map : (xs : List (Operation K V)) → apply_all xs new ≡ map_apply_all xs []
  unfolding new
  answers_as_map xs = apply_all-Holds xs (inline none) [] (λ id. refl)
