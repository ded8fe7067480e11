-- ===== src/Store/Rotating/Shard.antt =====
-- One shard: its two generations share no key, and each operation's effect on what `get` finds.
use rustservicelib.Base.{
  ℕ, List, [], ◌∷◌, none, some, Bool, true, false, ◌==◌, Eq, if◌then◌else◌, lookup, insert, remove,
  or_else, is_some, arith, ◌≡◌, refl, sym, ◌∙◌, lookup-insert, lookup-remove, IsMap, insert-IsMap,
  remove-IsMap, insert_all, lookup-insert_all, insert_all-IsMap, Bool-cases, Option-cases, inl, inr,
  beq_refl, if_both,
}
use rustservicelib.Store.Rotating.{
  Maps, empty_shard, shard_get, shard_get_or_create, shard_pop, shard_pop_if, or_insert_all,
  rotate_shard,
}

module _ {ℓ κ} {K : Type ℓ} {V : Type κ} ⦃e : Eq K⦄ where
  pub record Inv (m : Maps K V) : Type (ℓ ⊔ κ) where
    pub current_map : IsMap m.current
    pub previous_map : IsMap m.previous
    pub disjoint : (k : K) (v : V) → lookup k m.current ≡ some v → lookup k m.previous ≡ none

  pub empty-Inv : Inv empty_shard
  unfolding empty_shard lookup
  empty-Inv = record { current_map = tt; previous_map = tt; disjoint = λ k v h. refl }

  -- A key that neither generation has goes into the current one.
  pub put-Inv :
      (k : K) (v : V) (m : Maps K V)
      → shard_get k m ≡ none
      → Inv m
      → Inv (record m { current = insert k v m.current })
  unfolding shard_get
  put-Inv k v m h i = record {
    current_map = insert-IsMap k v m.current i.current_map;
    previous_map = i.previous_map;
    disjoint = λ j w found. elim (Bool-cases (k == j)) [
      | inl same ↦ ground (arith, e.beq_iff k j)
      | inr other ↦ i.disjoint j w (sym (lookup-insert k j v m.current ∙ rw other) ∙ found)
    ];
  }

  pub get-put :
      (k j : K) (v : V) (m : Maps K V)
      → shard_get k m ≡ none
      → shard_get j (record m { current = insert k v m.current })
        ≡ (if k == j then some v else shard_get j m)
  unfolding shard_get
  get-put k j v m h = ground (arith, lookup-insert k j v m.current)

  pub take_current-Inv :
      (k : K) (m : Maps K V) → Inv m → Inv (record m { current = remove k m.current })
  take_current-Inv k m i = record {
    current_map = remove-IsMap k m.current i.current_map;
    previous_map = i.previous_map;
    disjoint = λ j w found. i.disjoint j w (still j w found);
  }
    where
      still : (j : K) (w : V) → lookup j (remove k m.current) ≡ some w → lookup j m.current ≡ some w
      still j w found = ground (arith, lookup-remove k j m.current)

  pub take_previous-Inv :
      (k : K) (m : Maps K V) → Inv m → Inv (record m { previous = remove k m.previous })
  take_previous-Inv k m i = record {
    current_map = i.current_map;
    previous_map = remove-IsMap k m.previous i.previous_map;
    disjoint = λ j w found. lookup-remove k j m.previous ∙ rw (i.disjoint j w found) (ground arith);
  }

  get-take_current :
      (k j : K) (v : V) (m : Maps K V)
      → Inv m
      → lookup k m.current ≡ some v
      → shard_get j (record m { current = remove k m.current })
        ≡ (if k == j then none else shard_get j m)
  unfolding shard_get
  get-take_current k j v m i h =
      ground (arith, e.beq_iff k j, lookup-remove k j m.current, i.disjoint k v)

  get-take_previous :
      (k j : K) (m : Maps K V)
      → lookup k m.current ≡ none
      → shard_get j (record m { previous = remove k m.previous })
        ≡ (if k == j then none else shard_get j m)
  unfolding shard_get
  get-take_previous k j m h = ground (arith, e.beq_iff k j, lookup-remove k j m.previous)

  -- `pop` gives what `get` finds, and then only that key is gone.
  pub pop_lem :
      (k : K) (m : Maps K V)
      → Inv m
      → ((shard_pop k m).0 ≡ shard_get k m)
        × Inv (shard_pop k m).1
        × ((j : K) → shard_get j (shard_pop k m).1 ≡ (if k == j then none else shard_get j m))
  unfolding shard_pop
  pop_lem k m i = elim (Option-cases (lookup k m.current)) [
    | inl missing ↦ rw missing (
      unfold shard_get in rw missing refl,
      take_previous-Inv k m i,
      λ j. get-take_previous k j m missing,
    )
    | inr (v, found) ↦ rw found (
      unfold shard_get in rw found refl,
      take_current-Inv k m i,
      λ j. get-take_current k j v m i found,
    )
  ]

  -- `pop_if` does so where the value passes the test, and nothing otherwise.
  pub pop_if_lem :
      (k : K) (p : V → Bool) (m : Maps K V)
      → ((v : V) → shard_get k m ≡ some v → p v ≡ true → shard_pop_if k p m ≡ shard_pop k m)
        × ((v : V) → shard_get k m ≡ some v → p v ≡ false → shard_pop_if k p m ≡ (none, m))
        × (shard_get k m ≡ none → shard_pop_if k p m ≡ (none, m))
  unfolding shard_pop_if shard_pop shard_get
  pop_if_lem k p m = (λ v h t. ground arith, λ v h t. ground arith, λ h. ground arith)

  pub get_or_create_lem :
      (k : K) (fresh : V) (m : Maps K V)
      → Inv m
      → let r = shard_get_or_create k fresh m in
        (r.1 ≡ is_some (shard_get k m))
        × (shard_get k r.2 ≡ some r.0)
        × Inv r.2
        × ((v : V) → shard_get k m ≡ some v → (r.0 ≡ v) × (r.2 ≡ m))
        × (shard_get k m ≡ none → r.0 ≡ fresh)
        × ((j : K) → (k == j) ≡ false → shard_get j r.2 ≡ shard_get j m)
  unfolding shard_get_or_create
  get_or_create_lem k fresh m i = elim (Option-cases (shard_get k m)) [
    | inl missing ↦ rw missing (
      refl,
      get-put k k fresh m missing ∙ rw (beq_refl k) refl,
      put-Inv k fresh m missing i,
      λ v h. absurd (clash h),
      λ h. refl,
      λ j other. get-put k j fresh m missing ∙ rw other refl,
    )
    | inr (v, found) ↦ rw found (
      refl,
      found,
      i,
      λ w h. (same_value v w h, refl),
      λ h. absurd (clash (sym h)),
      λ j other. refl,
    )
  ]
    where
      clash : {v : V} → none ≡ some v → ⊥
      clash h = cc

      same_value : (v w : V) → some v ≡ some w → v ≡ w
      same_value v w h = cc

  -- The drain of the previous generation: a key that is there keeps its value.
  lookup-or_insert_all :
      (j : K) (xs m : List (K × V))
      → lookup j (or_insert_all xs m) ≡ or_else (lookup j m) (lookup j xs)
  unfolding or_insert_all lookup
  lookup-or_insert_all j [] m = ground arith
  lookup-or_insert_all j ((k, v) ∷ xs) m = elim (Option-cases (lookup k m)) [
    | inl missing ↦ rw missing (
        lookup-or_insert_all j xs (insert k v m)
        ∙ ground (arith, e.beq_iff k j, lookup-insert k j v m))
    | inr (w, found) ↦ rw found (lookup-or_insert_all j xs m ∙ ground (arith, e.beq_iff k j))
  ]

  or_insert_all-IsMap : (xs m : List (K × V)) → IsMap m → IsMap (or_insert_all xs m)
  unfolding or_insert_all
  or_insert_all-IsMap [] m u = u
  or_insert_all-IsMap ((k, v) ∷ xs) m u = elim (Option-cases (lookup k m)) [
    | inl missing ↦ rw missing (or_insert_all-IsMap xs (insert k v m) (insert-IsMap k v m u))
    | inr (w, found) ↦ rw found (or_insert_all-IsMap xs m u)
  ]

  abbrev merged : Maps K V → List (K × V)
  merged m = or_insert_all m.previous (insert_all m.current [])

  lookup-merged : (j : K) (m : Maps K V) → Inv m → lookup j (merged m) ≡ shard_get j m
  unfolding shard_get
  lookup-merged j m i =
      lookup-or_insert_all j m.previous (insert_all m.current [])
      ∙ rw (lookup-insert_all j m.current [] i.current_map) (unfold lookup in ground arith)

  abbrev Same : Maps K V → Maps K V → Type (ℓ ⊔ κ)
  Same m r = Inv r × ((j : K) → shard_get j r ≡ shard_get j m)

  mark_Same : (n : ℕ) (m : Maps K V) → Inv m → Same m (record m { high_water_mark = n })
  unfolding shard_get
  mark_Same n m i = (
    record { current_map = i.current_map; previous_map = i.previous_map; disjoint = i.disjoint },
    λ j. refl,
  )

  merged-Same :
      (n : ℕ) (m : Maps K V)
      → Inv m
      → Same m (record { current = []; previous = merged m; high_water_mark = n })
  merged-Same n m i = (
    record {
      current_map = tt;
      previous_map = or_insert_all-IsMap m.previous _ (insert_all-IsMap m.current [] tt);
      disjoint = λ k v h. absurd (none_there k v h);
    },
    λ j. only_previous j (merged m) ∙ lookup-merged j m i,
  )
    where
      none_there : (k : K) (v : V) → lookup k [] ≡ some v → ⊥
      none_there k v h = unfold lookup in cc

      only_previous :
          (j : K) (p : List (K × V))
          → shard_get j (record { current = []; previous = p; high_water_mark = n }) ≡ lookup j p
      only_previous j p = unfold shard_get lookup in refl

  -- A rotation loses no entry and makes none up, and keeps the generations apart.
  pub rotate_lem :
      (min_capacity : ℕ) (m : Maps K V)
      → Inv m
      → Inv (rotate_shard min_capacity m)
        × ((j : K) → shard_get j (rotate_shard min_capacity m) ≡ shard_get j m)
  unfolding rotate_shard
  rotate_lem min_capacity m i =
      if_both (Same m) _ _ _ (mark_Same _ m i)
        (if_both (Same m) _ _ _ (merged-Same _ m i) (mark_Same _ m i))
