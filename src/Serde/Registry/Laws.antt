-- ===== src/Serde/Registry/Laws.antt =====
-- A serde that `get` of src/runtime/serde/registry.rs has returned stays the serde of its key.
use rustservicelib.Base.{
  ℕ, List, [], ◌∷◌, Option, none, some, Bool, true, false, ◌==◌, lookup, insert, is_some,
  lookup-insert, lookup-insert_self, ◌||◌, ◌≡◌, refl, sym, ◌∙◌, ap, inl, inr, Bool-cases,
  Option-cases,
}
use rustservicelib.Serde.Registry.{
  TypeId, Serde, Serializer, Result, Key, RegistryState, Look, Write, ok, err, found, missing, sets,
  gets, caches, type_eq, service_eq, key_eq, service_beq, service_beq_iff, duplicate_resource,
  typed, look, select, store, stored, after_look, get, cache, set_provider, has_service, write,
  writes,
}

-- The registry has a serializer for a key.
abbrev Has : Key → Serializer → RegistryState → Type 0
Has key x s = lookup key s.serializers ≡ some x

insert-keeps :
    (j key : Key) (x y : Serializer) (m : List (Key × Serializer))
    → lookup key m ≡ none
    → lookup j m ≡ some x
    → lookup j (insert key y m) ≡ some x
insert-keeps j key x y m gone h = elim (Bool-cases (key == j)) [
  | inl same ↦
      let kj : key ≡ j = (key_eq.beq_iff key j).0 same in
      absurd (none_there (sym gone ∙ ap (λ k. lookup k m) kj ∙ h))
  | inr apart ↦ lookup-insert key j y m ∙ rw apart h
]
  where
    none_there : none ≡ some x → ⊥
    none_there e = cc

store-Has :
    (j key : Key) (x y : Serializer) (s : RegistryState) → Has j x s → Has j x (store key y s).1
unfolding store
store-Has j key x y s h = elim (Option-cases (lookup key s.serializers)) [
  | inl gone ↦ rw (gone, store) (insert-keeps j key x y s.serializers gone h)
  | inr (z, there) ↦ rw (there, store) h
]

after_look-Has :
    (provide : ℕ → TypeId → Result (Option Serializer)) (j key : Key) (x : Serializer) (l : Look)
    → (s : RegistryState) → Has j x s
    → Has j x (after_look provide key l s).1
after_look-Has provide j key x (found r) s h = h
after_look-Has provide j key x (missing p) s h = stored_keeps (select provide key.1 p)
  where
    stored_keeps : (r : Result Serializer) → Has j x (stored key r s).1
    stored_keeps (err e) = h
    stored_keeps (ok y) = store-Has j key x y s h

set_provider-Has :
    (j : Key) (x : Serializer) (service : Option ℕ) (provider : ℕ) (s : RegistryState)
    → Has j x s
    → Has j x (set_provider service provider s).1
unfolding set_provider
set_provider-Has j x service provider s h =
    elim (Bool-cases (is_some (lookup service s.providers) || has_service service s.serializers)) [
      | inl late ↦ rw late h
      | inr early ↦ rw early h
    ]

cache-Has :
    (j key : Key) (x : Serializer) (serde : Serde) (s : RegistryState)
    → Has j x s
    → Has j x (cache key serde s).1
unfolding cache
cache-Has j key x serde s h = elim (Option-cases (lookup key s.serializers)) [
  | inl gone ↦
      let y : Serializer = record { value_type = key.1; serde = serde } in
      rw (gone, cache) (insert-keeps j key x y s.serializers gone h)
  | inr (z, there) ↦ rw (there, cache) h
]

has_service_lem :
    (key : Key) (x : Serializer) (m : List (Key × Serializer))
    → lookup key m ≡ some x
    → has_service key.0 m ≡ true
unfolding lookup
has_service_lem key x [] h = absurd cc
has_service_lem key x ((k, y) ∷ m) h = elim (Bool-cases (k == key)) [
  | inl same ↦
      let e : k ≡ key = (key_eq.beq_iff k key).0 same in
      rw ((service_beq_iff k.0 key.0).1 (ap (λ (z : Key). z.0) e)) refl
  | inr apart ↦
      let on : lookup key ((k, y) ∷ m) ≡ lookup key m = rw apart refl in
      or_true (service_beq k.0 key.0) (has_service key.0 m) (has_service_lem key x m (sym on ∙ h))
]
  where
    or_true : (b c : Bool) → c ≡ true → (b || c) ≡ true
    or_true true c h = refl
    or_true false c h = h

store_got :
    (key : Key) (y : Serializer) (s : RegistryState) (a : Serde)
    → (store key y s).0 ≡ ok a
    → (x : Serializer) × Has key x (store key y s).1 × (typed key.1 x ≡ ok a)
unfolding store
store_got key y s a h = elim (Option-cases (lookup key s.serializers)) [
  | inl gone ↦
      let got : typed key.1 y ≡ ok a = sym (rw (gone, store) refl) ∙ h in
      (y, rw (gone, store) (lookup-insert_self key y s.serializers), got)
  | inr (z, there) ↦
      let got : typed key.1 z ≡ ok a = sym (rw (there, store) refl) ∙ h in
      (z, rw (there, store) there, got)
]

module _ (provide : ℕ → TypeId → Result (Option Serializer)) where
  write-Has :
      (w : Write) (j : Key) (x : Serializer) (s : RegistryState)
      → Has j x s
      → Has j x (write provide w s)
  unfolding write get
  write-Has (sets service provider) j x s h = set_provider-Has j x service provider s h
  write-Has (gets key before) j x s h = after_look-Has provide j key x (look key before) s h
  write-Has (caches key serde) j x s h = cache-Has j key x serde s h

  writes-Has :
      (ws : List Write) (j : Key) (x : Serializer) (s : RegistryState)
      → Has j x s
      → Has j x (writes provide ws s)
  unfolding writes
  writes-Has [] j x s h = h
  writes-Has (w ∷ ws) j x s h = writes-Has ws j x (write provide w s) (write-Has w j x s h)

  get_got :
      (key : Key) (s later : RegistryState) (a : Serde)
      → ((x : Serializer) → Has key x s → Has key x later)
      → (get provide key s later).0 ≡ ok a
      → (x : Serializer) × Has key x (get provide key s later).1 × (typed key.1 x ≡ ok a)
  unfolding get look
  get_got key s later a k h = elim (Option-cases (lookup key s.serializers)) [
    | inl gone ↦
        let here : look key s ≡ missing (lookup key.0 s.providers) = rw (gone, look) refl in
        let got : (stored key (select provide key.1 (lookup key.0 s.providers)) later).0 ≡ ok a =
          sym (ap (λ l. (after_look provide key l later).0) here) ∙ h in
        let (x, has, is) = stored_got (select provide key.1 (lookup key.0 s.providers)) got in
        (x, ap (λ l. lookup key (after_look provide key l later).1.serializers) here ∙ has, is)
    | inr (x, there) ↦
        let here : look key s ≡ found (typed key.1 x) = rw (there, look) refl in
        let got : typed key.1 x ≡ ok a =
          sym (ap (λ l. (after_look provide key l later).0) here) ∙ h in
        (
          x,
          ap (λ l. lookup key (after_look provide key l later).1.serializers) here ∙ k x there,
          got,
        )
  ]
    where
      stored_got :
          (r : Result Serializer)
          → (stored key r later).0 ≡ ok a
          → (x : Serializer) × Has key x (stored key r later).1 × (typed key.1 x ≡ ok a)
      stored_got (err e) h = absurd cc
      stored_got (ok y) h = store_got key y later a h

  -- A `get` that returns a serde, with any writes of the registry between its two locks: whatever is
  -- written after it, a later `get` of the same key finds the same serde under its first lock, without
  -- asking the provider, and a provider for its service is refused.
  pub get_stays :
      (key : Key) (s : RegistryState) (between after : List Write) (a : Serde) (provider : ℕ)
      → (get provide key s (writes provide between s)).0 ≡ ok a
      → (look key (writes provide after (get provide key s (writes provide between s)).1)
          ≡ found (ok a))
        × ((set_provider key.0 provider
              (writes provide after (get provide key s (writes provide between s)).1)).0
            ≡ err duplicate_resource)
  unfolding look set_provider
  get_stays key s between after a provider h =
      let later = writes provide between s in
      let (x, has, is) = get_got key s later a (λ x there. writes-Has between key x s there) h in
      let end = writes provide after (get provide key s later).1 in
      let kept : Has key x end = writes-Has after key x (get provide key s later).1 has in
      (
        rw (kept, look) (ap found is),
        late end (or_true _ _ (has_service_lem key x end.serializers kept)),
      )
    where
      or_true : (b c : Bool) → c ≡ true → (b || c) ≡ true
      or_true true c h = refl
      or_true false c h = h

      late :
          (s : RegistryState)
          → (is_some (lookup key.0 s.providers) || has_service key.0 s.serializers) ≡ true
          → (set_provider key.0 provider s).0 ≡ err duplicate_resource
      late s h = unfold set_provider in rw h refl
