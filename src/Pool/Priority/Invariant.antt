-- ===== src/Pool/Priority/Invariant.antt =====
-- The ordered map and the index of a priority queue agree, and what each operation does to the
-- tasks as they are seen through both.
use rustservicelib.Base.{
  ℕ, List, ◌∷◌, Option, none, some, Bool, true, false, ◌==◌, nat_eq, if◌then◌else◌, lookup, insert,
  remove, arith, ◌≡◌, refl, sym, ◌∙◌, ◌>>=◌, map_option, lookup-insert, lookup-remove, Bool-cases,
  inl, inr, Option-cases, ap,
}
use rustservicelib.Base.Int.{ℤ}
use rustservicelib.Pool.Priority.{Key, key_eq, key_lt, ordered_insert, Priority, new, push, i32_min}
use rustservicelib.Pool.Priority.Order.{
  IsOrdered, Above, insert-IsOrdered, remove-IsOrdered, lookup-ordered_insert, Above-lookup,
  key_lt_irrefl,
}

pub ne_key : (a b : Key) → (a.id == b.id) ≡ false → (a == b) ≡ false
ne_key a b n = ground (arith, key_eq.beq_iff a b)

step_over {ℓ} :
    {A : Type ℓ} (b : Bool) (x o p : Option A)
    → p ≡ (if b then none else o)
    → (if b then x else o) ≡ (if b then x else p)
step_over true x o p h = refl
step_over false x o p h = sym h

module _ {ℓ} {E : Type ℓ} where
  pub record Inv (q : Priority E) : Type ℓ where
    pub ordered : IsOrdered q.entries
    pub located :
        (id : ℕ) (k : Key)
        → lookup id q.positions ≡ some k
        → (k.id ≡ id) × ((e : E) × (lookup k q.entries ≡ some e))
    pub indexed : (k : Key) (e : E) → lookup k q.entries ≡ some e → lookup k.id q.positions ≡ some k

  -- The key and the payload of a queued task.
  abbrev pub task : ℕ → Priority E → Option (Key × E)
  task id q = lookup id q.positions >>= λ k. map_option (λ e. (k, e)) (lookup k q.entries)

  pub new-Inv : Inv new
  unfolding new lookup
  new-Inv = record { ordered = tt; located = λ id k h. cc; indexed = λ k e h. cc }

  -- A new key in both maps, given by what each finds then.
  put_Inv :
      (key : Key) (e : E) (q r : Priority E)
      → Inv q
      → lookup key.id q.positions ≡ none
      → IsOrdered r.entries
      → ((j : Key) → lookup j r.entries ≡ (if key == j then some e else lookup j q.entries))
      → ((j : ℕ) → lookup j r.positions ≡ (if key.id == j then some key else lookup j q.positions))
      → Inv r
  put_Inv key e q r v fresh ord es ps = record {
    ordered = ord;
    located = λ id k h. elim (Bool-cases (key.id == id)) [
      | inl same ↦
          let k_eq : key ≡ k = ground (arith, sym (ps id) ∙ h) in
          rw (← k_eq)
            ((nat_eq.beq_iff key.id id).0 same, (e, es key ∙ rw ((key_eq.beq_iff key key).1 refl)))
      | inr other ↦
          let old : lookup id q.positions ≡ some k = sym (ps id ∙ rw other) ∙ h in
          let (p, (e', f)) = v.located id k old in
          (p, (e', es k ∙ rw (ne_key key k (rw p other)) f))
    ];
    indexed = λ k e' h. elim (Bool-cases (key == k)) [
      | inl same ↦
          let p : key ≡ k = (key_eq.beq_iff key k).0 same in
          rw (← p) (ps key.id ∙ rw ((nat_eq.beq_iff key.id key.id).1 refl))
      | inr other ↦
          let old = v.indexed k e' (sym (es k ∙ rw other) ∙ h) in
          elim (Bool-cases (key.id == k.id)) [
            | inl same ↦
                let p : key.id ≡ k.id = (nat_eq.beq_iff key.id k.id).0 same in
                absurd (not_found (sym fresh ∙ ap (λ i. lookup i q.positions) p ∙ old))
            | inr ne ↦ ps k.id ∙ rw ne old
          ]
    ];
  }
    where
      not_found : {k : Key} → none ≡ some k → ⊥
      not_found h = cc

  -- A key that leaves both maps.
  drop_Inv :
      (key : Key) (e : E) (q r : Priority E)
      → Inv q
      → lookup key q.entries ≡ some e
      → IsOrdered r.entries
      → ((j : Key) → lookup j r.entries ≡ (if key == j then none else lookup j q.entries))
      → ((j : ℕ) → lookup j r.positions ≡ (if key.id == j then none else lookup j q.positions))
      → Inv r
  drop_Inv key e q r v found ord es ps = record {
    ordered = ord;
    located = λ id k h. elim (Bool-cases (key.id == id)) [
      | inl same ↦ absurd (not_found (sym (ps id ∙ rw same) ∙ h))
      | inr other ↦
          let old : lookup id q.positions ≡ some k = sym (ps id ∙ rw other) ∙ h in
          let (p, (e', f)) = v.located id k old in
          (p, (e', es k ∙ rw (ne_key key k (rw p other)) f))
    ];
    indexed = λ k e' h. elim (Bool-cases (key == k)) [
      | inl same ↦ absurd (not_found_e (sym (es k ∙ rw same) ∙ h))
      | inr other ↦
          let old = v.indexed k e' (sym (es k ∙ rw other) ∙ h) in
          elim (Bool-cases (key.id == k.id)) [
            | inl same ↦
                let p : key.id ≡ k.id = (nat_eq.beq_iff key.id k.id).0 same in
                let clash : some key ≡ some k =
                  sym (v.indexed key e found) ∙ ap (λ i. lookup i q.positions) p ∙ old in
                absurd (is_key other clash)
            | inr ne ↦ ps k.id ∙ rw ne old
          ]
    ];
  }
    where
      not_found : {k : Key} → none ≡ some k → ⊥
      not_found h = cc

      not_found_e : {e' : E} → none ≡ some e' → ⊥
      not_found_e h = cc

      is_key : {k : Key} → (key == k) ≡ false → some key ≡ some k → ⊥
      is_key {k} h c = ground (arith, key_eq.beq_iff key k)

  -- A new task is queued under its priority, and the others keep theirs.
  pub push-Inv :
      (id : ℕ) (p : ℤ) (e : E) (q : Priority E)
      → lookup id q.positions ≡ none
      → Inv q
      → Inv (push id p e q)
  unfolding push
  push-Inv id p e q fresh v =
      let key : Key = record { priority = p; id = id } in
      put_Inv key e q _ v fresh (insert-IsOrdered key e q.entries v.ordered)
        (λ j. lookup-ordered_insert key j e q.entries) (λ j. lookup-insert id j key q.positions)

  -- Removing the first key.
  pub rest_lookup :
      (k j : Key) (e : E) (m : List (Key × E))
      → Above k m
      → lookup j m ≡ (if k == j then none else lookup j ((k, e) ∷ m))
  unfolding lookup
  rest_lookup k j e m h = elim (Bool-cases (k == j)) [
    | inl same ↦ elim (Option-cases (lookup j m)) [
      | inl missing ↦ rw (same, missing)
      | inr (e', found) ↦ absurd (
          clash (key_lt k j) (Above-lookup k j e' m h found)
            (ap (key_lt k) (sym ((key_eq.beq_iff k j).0 same)) ∙ key_lt_irrefl k))
    ]
    | inr other ↦ rw other
  ]
    where
      clash : (b : Bool) → b ≡ true → b ≡ false → ⊥
      clash b h h' = cc

  pub pop_first_Inv :
      (k : Key) (e : E) (m : List (Key × E)) (ps : List (ℕ × Key))
      → Inv (record { entries = (k, e) ∷ m; positions = ps })
      → Inv (record { entries = m; positions = remove k.id ps })
  unfolding lookup
  pop_first_Inv k e m ps v =
      drop_Inv k e (record { entries = (k, e) ∷ m; positions = ps }) _ v
        (rw ((key_eq.beq_iff k k).1 refl)) v.ordered.1 (λ j. rest_lookup k j e m v.ordered.0)
        (λ j. lookup-remove k.id j ps)

  pub promote_found_Inv :
      (id : ℕ) (k : Key) (e : E) (q : Priority E)
      → Inv q
      → lookup id q.positions ≡ some k
      → lookup k q.entries ≡ some e
      → k.id ≡ id
      → let key : Key = record { priority = i32_min; id = k.id } in
        Inv (record {
          entries = ordered_insert key e (remove k q.entries);
          positions = insert id key q.positions;
        })
  promote_found_Inv id k e q v at found same =
      let key : Key = record { priority = i32_min; id = k.id } in
      let gone : Priority E = record {
        entries = remove k q.entries;
        positions = remove k.id q.positions;
      } in
      let gone_Inv : Inv gone =
        drop_Inv k e q gone v found (remove-IsOrdered k q.entries v.ordered)
          (λ j. lookup-remove k j q.entries) (λ j. lookup-remove k.id j q.positions) in
      put_Inv key e gone _ gone_Inv
        (lookup-remove k.id k.id q.positions ∙ rw ((nat_eq.beq_iff k.id k.id).1 refl))
        (insert-IsOrdered key e (remove k q.entries) gone_Inv.ordered)
        (λ j. lookup-ordered_insert key j e (remove k q.entries))
        (λ j.
          lookup-insert id j key q.positions
          ∙ rw same (step_over (id == j) _ _ _ (lookup-remove id j q.positions)))
