-- ===== src/Store/Rotating/Laws.antt =====
-- The rotating map refines a partial function from keys to values, `get`: what each call answers,
-- and what it does to that function, whatever the hash.
use rustservicelib.Base.{
  ℕ, Option, none, some, Bool, true, false, ◌==◌, Eq, nat_eq, if◌then◌else◌, arith, ◌≡◌, refl, sym,
  ◌∙◌, ap, Bool-cases, inl, inr, is_some, ◌⊎◌, insert, or_else, Option-cases,
}
use rustservicelib.Store.Rotating.{
  Maps, RotatingMap, SetResult, ok, duplicate_key, shard_get, shard_set, shard_get_or_create,
  put_shard, shard_of, shard_index, get, set, get_or_create, pop, pop_if, rotate, new,
}
use rustservicelib.Store.Rotating.Shard.{
  Inv, empty-Inv, put-Inv, get-put, pop_lem as shard-pop_lem, pop_if_lem as shard-pop_if_lem,
  get_or_create_lem as shard-get_or_create_lem, rotate_lem as shard-rotate_lem,
}

ne_of_index {ℓ} :
    {K : Type ℓ} ⦃e : Eq K⦄ (hash : K → ℕ) (k j : K)
    → (shard_index hash k == shard_index hash j) ≡ false
    → (k == j) ≡ false
ne_of_index ⦃e⦄ hash k j h = elim (Bool-cases (k == j)) [
  | inl same ↦
      absurd
        (clash (sym h ∙ (nat_eq.beq_iff _ _).1 (ap (shard_index hash) ((e.beq_iff k j).0 same))))
  | inr other ↦ other
]
  where
    clash : false ≡ true → ⊥
    clash h' = cc

module _ {ℓ κ} {K : Type ℓ} {V : Type κ} ⦃e : Eq K⦄ where
  abbrev pub IsValid : RotatingMap K V → Type (ℓ ⊔ κ)
  IsValid r = (i : ℕ) → Inv (r.shards i)

  pub new-IsValid : (min_capacity : ℕ) → IsValid (new {K = K} {V = V} min_capacity)
  unfolding new
  new-IsValid min_capacity i = empty-Inv

module _ {ℓ κ} {K : Type ℓ} {V : Type κ} ⦃e : Eq K⦄ (hash : K → ℕ) where
  put-IsValid :
      (k : K) (m : Maps K V) (r : RotatingMap K V)
      → Inv m
      → IsValid r
      → IsValid (put_shard hash k m r)
  put-IsValid k m r i v j = elim (Bool-cases (shard_index hash k == j)) [
    | inl same ↦ rw same i
    | inr other ↦ rw other (v j)
  ]

  -- A change of one key in its shard is a change of that key in the map.
  get-put_shard :
      (k j : K) (x : Option V) (m : Maps K V) (r : RotatingMap K V)
      → ((i : K) → shard_get i m ≡ (if k == i then x else shard_get i (shard_of hash k r)))
      → get hash j (put_shard hash k m r) ≡ (if k == j then x else get hash j r)
  unfolding get
  get-put_shard k j x m r h = elim (Bool-cases (shard_index hash k == shard_index hash j)) [
    | inl same ↦
        let index_eq : shard_index hash k ≡ shard_index hash j = (nat_eq.beq_iff _ _).0 same in
        rw same (h j ∙ ap (λ (n : ℕ). if k == j then x else shard_get j (r.shards n)) index_eq)
    | inr other ↦ rw (other, ne_of_index hash k j other) refl
  ]

  -- In a valid map, `pop` answers what `get` finds; then that key is gone, and every other key is as before.
  pub pop_refines :
      (k : K) (r : RotatingMap K V)
      → IsValid r
      → ((pop hash k r).0 ≡ get hash k r)
        × IsValid (pop hash k r).1
        × ((j : K) → get hash j (pop hash k r).1 ≡ (if k == j then none else get hash j r))
  unfolding pop
  pop_refines k r v =
      let (answer, i, law) = shard-pop_lem k (shard_of hash k r) (v (shard_index hash k)) in
      (answer ∙ (unfold get in refl), put-IsValid k _ r i v, λ j. get-put_shard k j none _ r law)

  set_cases :
      (k : K) (x : V) (r : RotatingMap K V)
      → IsValid r
      → (get hash k r ≡ none
          → (r' : RotatingMap K V) × (set hash k x r ≡ ok r')
            × IsValid r'
            × ((j : K) → get hash j r' ≡ (if k == j then some x else get hash j r)))
        × ((y : V) → get hash k r ≡ some y → set hash k x r ≡ duplicate_key)
  unfolding set
  set_cases k x r v = (
    λ missing. (
      put_shard hash k (record (shard_of hash k r) { current = _ }) r,
      ap stored_at (free missing),
      put-IsValid k _ r (put-Inv k x (shard_of hash k r) (at missing) (v (shard_index hash k))) v,
      λ j. get-put_shard k j (some x) _ r (λ i. get-put k i x (shard_of hash k r) (at missing)),
    ),
    λ y found. ap stored_at (taken y found),
  )
    where
      stored_at : SetResult (Maps K V) → SetResult (RotatingMap K V)
      stored_at (ok m) = ok (put_shard hash k m r)
      stored_at duplicate_key = duplicate_key

      at : {o : Option V} → get hash k r ≡ o → shard_get k (shard_of hash k r) ≡ o
      at h = unfold get in h

      free :
          get hash k r ≡ none
          → shard_set k x (shard_of hash k r)
            ≡ ok (record (shard_of hash k r) { current = insert k x (shard_of hash k r).current })
      free h = unfold shard_set shard_get get in ground arith

      taken : (y : V) → get hash k r ≡ some y → shard_set k x (shard_of hash k r) ≡ duplicate_key
      taken y h = unfold shard_set shard_get get in ground arith

  -- In a valid map, a key that is not there is stored, and every other key is as before; one that is
  -- there is refused.
  pub set_refines :
      (k : K) (x : V) (r : RotatingMap K V)
      → IsValid r
      → (get hash k r ≡ none)
          × ((r' : RotatingMap K V) × (set hash k x r ≡ ok r')
              × IsValid r'
              × ((j : K) → get hash j r' ≡ (if k == j then some x else get hash j r)))
        ⊎ ((y : V) × (get hash k r ≡ some y) × (set hash k x r ≡ duplicate_key))
  set_refines k x r v = elim (Option-cases (get hash k r)) [
    | inl missing ↦ inl (missing, (set_cases k x r v).0 missing)
    | inr (y, found) ↦ inr (y, found, (set_cases k x r v).1 y found)
  ]

  -- In a valid map, `get_or_create` answers the stored value, or the fresh one where there is none, and
  -- whether there was one; afterwards the key has that value, and every other key is as before.
  pub get_or_create_refines :
      (k : K) (fresh : V) (r : RotatingMap K V)
      → IsValid r
      → let c = get_or_create hash k fresh r in
        (c.1 ≡ is_some (get hash k r))
        × IsValid c.2
        × (some c.0 ≡ or_else (get hash k r) (some fresh))
        × ((j : K) → get hash j c.2 ≡ (if k == j then some c.0 else get hash j r))
  unfolding get_or_create
  get_or_create_refines k fresh r v =
      let (told, now, i, old, new', others) =
        shard-get_or_create_lem k fresh (shard_of hash k r) (v (shard_index hash k)) in
      (
        told ∙ ap is_some here,
        put-IsValid k _ r i v,
        elim (Option-cases (get hash k r)) [
          | inl missing ↦ rw missing (ap some (new' (here ∙ missing)))
          | inr (x, found) ↦ rw found (ap some (old x (here ∙ found)).0)
        ],
        λ j. get-put_shard k j _ _ r λ j'. elim (Bool-cases (k == j')) [
          | inl same ↦ rw same (
              ap (λ (a : K). shard_get a (shard_get_or_create k fresh (shard_of hash k r)).2)
                (sym ((e.beq_iff k j').0 same))
              ∙ now)
          | inr other ↦ rw other (others j' other)
        ],
      )
    where
      here : shard_get k (shard_of hash k r) ≡ get hash k r
      here = unfold get in refl

  pop_if_cases :
      (k : K) (p : V → Bool) (r : RotatingMap K V)
      → ((x : V) → get hash k r ≡ some x → p x ≡ true → pop_if hash k p r ≡ pop hash k r)
        × ((x : V)
            → get hash k r ≡ some x
            → p x ≡ false
            → ((pop_if hash k p r).0 ≡ none)
              × ((j : K) → get hash j (pop_if hash k p r).1 ≡ get hash j r))
        × (get hash k r ≡ none
            → ((pop_if hash k p r).0 ≡ none)
              × ((j : K) → get hash j (pop_if hash k p r).1 ≡ get hash j r))
  unfolding pop_if pop
  pop_if_cases k p r =
      let (pass, fail, missing) = shard-pop_if_lem k p (shard_of hash k r) in
      (
        λ x h t. ap put_at (pass x (at h) t),
        λ x h t.
            (ap (λ c. c.0) (fail x (at h) t), λ j. as_before j _ (ap (λ c. c.1) (fail x (at h) t))),
        λ h. (ap (λ c. c.0) (missing (at h)), λ j. as_before j _ (ap (λ c. c.1) (missing (at h)))),
      )
    where
      put_at : Option V × Maps K V → Option V × RotatingMap K V
      put_at c = (c.0, put_shard hash k c.1 r)

      at : {o : Option V} → get hash k r ≡ o → shard_get k (shard_of hash k r) ≡ o
      at h = unfold get in h

      as_before :
          (j : K) (m : Maps K V)
          → m ≡ shard_of hash k r
          → get hash j (put_shard hash k m r) ≡ get hash j r
      as_before j m h = rw h (unchanged j)
        where
          unchanged : (j : K) → get hash j (put_shard hash k (shard_of hash k r) r) ≡ get hash j r
          unchanged j =
              unfold get in
              elim (Bool-cases (shard_index hash k == shard_index hash j)) [
                | inl same ↦
                    rw same (ap (λ (n : ℕ). shard_get j (r.shards n)) ((nat_eq.beq_iff _ _).0 same))
                | inr other ↦ rw other refl
              ]

  -- `pop_if` is `pop` where the key has a value that passes the test; otherwise it answers `None` and
  -- every key is as before.
  pub pop_if_refines :
      (k : K) (p : V → Bool) (r : RotatingMap K V)
      → let c = pop_if hash k p r in
        ((x : V) × (get hash k r ≡ some x) × (p x ≡ true) × (c ≡ pop hash k r))
        ⊎ (((get hash k r ≡ none) ⊎ ((x : V) × (get hash k r ≡ some x) × (p x ≡ false)))
            × (c.0 ≡ none)
            × ((j : K) → get hash j c.1 ≡ get hash j r))
  pop_if_refines k p r =
      let (pass, fail, missing) = pop_if_cases k p r in
      elim (Option-cases (get hash k r)) [
        | inl gone ↦ inr (inl gone, (missing gone).0, (missing gone).1)
        | inr (x, found) ↦ elim (Bool-cases (p x)) [
          | inl passes ↦ inl (x, found, passes, pass x found passes)
          | inr fails ↦ inr (inr (x, found, fails), (fail x found fails).0, (fail x found fails).1)
        ]
      ]

  -- A rotation of a valid map leaves it valid and changes what no key finds.
  pub rotate_refines :
      (r : RotatingMap K V)
      → IsValid r
      → IsValid (rotate r) × ((j : K) → get hash j (rotate r) ≡ get hash j r)
  unfolding rotate get
  rotate_refines r v = (
    λ i. (shard-rotate_lem r.min_capacity (r.shards i) (v i)).0,
    λ j. (shard-rotate_lem r.min_capacity (shard_of hash j r) (v (shard_index hash j))).1 j,
  )
