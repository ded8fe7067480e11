-- ===== src/Config/Yaml.antt =====
-- src/runtime/config/loader.rs, `merge_yaml`. A YAML value is a mapping or anything else, which is a
-- leaf here, since a merge replaces it as a whole. The type of the keys and of the leaves are
-- parameters; a mapping is its fields in their order.
use rustservicelib.Base.{
  List, [], ◌∷◌, Option, none, some, Bool, false, ◌==◌, Eq, if◌then◌else◌, arith, ◌≡◌, refl, sym,
  ◌∙◌, ap, Bool-cases, Option-cases, inl, inr, subst, ◌>>=◌,
}

mutual
  pub data Yaml {ℓ} (K : Type ℓ) (L : Type ℓ) : Type ℓ where
    leaf : L → Yaml K L
    mapping : Fields K L → Yaml K L

  pub data Fields {ℓ} (K : Type ℓ) (L : Type ℓ) : Type ℓ where
    no_fields : Fields K L
    field : K → Yaml K L → Fields K L → Fields K L

module _ {ℓ} {K : Type ℓ} {L : Type ℓ} ⦃e : Eq K⦄ where
  -- `Mapping::get_mut`, and a write through it or an `insert` behind the last field.
  unfoldable pub find : K → Fields K L → Option (Yaml K L)
  find k no_fields = none
  find k (field j v fs) = if j == k then some v else find k fs

  unfoldable pub put : K → Yaml K L → Fields K L → Fields K L
  put k v no_fields = field k v no_fields
  put k v (field j w fs) = if j == k then field j v fs else field j w (put k v fs)

  mutual
    -- The loop over the fields of the override.
    pub merge_fields : Fields K L → Fields K L → Fields K L
    merge_fields base no_fields = base
    merge_fields base (field k v fs) = merge_fields (put k (merge_found (find k base) v) base) fs

    -- A value of the override, and what the base has in its place.
    pub merge_found : Option (Yaml K L) → Yaml K L → Yaml K L
    merge_found base (leaf l) = leaf l
    merge_found none (mapping fs) = mapping fs
    merge_found (some (leaf b)) (mapping fs) = mapping fs
    merge_found (some (mapping base)) (mapping fs) = mapping (merge_fields base fs)

  abbrev pub merge_yaml : Yaml K L → Yaml K L → Yaml K L
  merge_yaml base over = merge_found (some base) over

  abbrev pub IsMapping : Fields K L → Type ℓ
  IsMapping no_fields = Unit
  IsMapping (field k v fs) = (find k fs ≡ none) × IsMapping fs

  find-put :
      (k j : K) (v : Yaml K L) (fs : Fields K L)
      → find j (put k v fs) ≡ (if k == j then some v else find j fs)
  unfolding find put
  find-put k j v no_fields = refl
  find-put k j v (field i w fs) =
      ground (arith, e.beq_iff k j, e.beq_iff i k, e.beq_iff i j, find-put k j v fs)

  -- What a merged mapping has under a key, by what the override and the base have.
  abbrev pub merged : Option (Yaml K L) → Option (Yaml K L) → Option (Yaml K L)
  merged base none = base
  merged base (some v) = some (merge_found base v)

  -- In a merged mapping, a key has the base's value where the override, whose keys are distinct, has
  -- none, and otherwise the override's, merged into the base's where the base has one.
  pub find-merge_fields :
      (k : K) (base over : Fields K L)
      → IsMapping over
      → find k (merge_fields base over) ≡ merged (find k base) (find k over)
  unfolding find merge_fields
  find-merge_fields k base no_fields u = refl
  find-merge_fields k base (field j v fs) u =
      let next : Fields K L = put j (merge_found (find j base) v) base in
      let rest = find-merge_fields k next fs u.1 in
      let one = find-put j k (merge_found (find j base) v) base in
      elim (Bool-cases (j == k)) [
        | inl same ↦
            let j_eq : j ≡ k = (e.beq_iff j k).0 same in
            let gone : find k fs ≡ none = ap (λ (i : K). find i fs) (sym j_eq) ∙ u.0 in
            rest
            ∙ ap (λ o. merged (find k next) o) gone
            ∙ one
            ∙ rw same (ap (λ (i : K). some (merge_found (find i base) v)) j_eq)
        | inr other ↦
            rest ∙ ap (λ o. merged o (find k fs)) (unchanged _ _ _ _ other one) ∙ rw other refl
      ]
    where
      unchanged :
          (b : Bool) (o x y : Option (Yaml K L)) → b ≡ false → o ≡ (if b then x else y) → o ≡ y
      unchanged b o x y h t = rw h at t

  -- The value at a path of keys.
  unfoldable pub at : List K → Yaml K L → Option (Yaml K L)
  at [] v = some v
  at (k ∷ ks) (leaf l) = none
  at (k ∷ ks) (mapping fs) = find k fs >>= λ v. at ks v

  -- The mappings inside a value have distinct keys.
  unfoldable mutual
    pub AllDistinct : Yaml K L → Type ℓ
    AllDistinct (leaf l) = Unit
    AllDistinct (mapping fs) = IsMapping fs × FieldsDistinct fs

    pub FieldsDistinct : Fields K L → Type ℓ
    FieldsDistinct no_fields = Unit
    FieldsDistinct (field k v fs) = AllDistinct v × FieldsDistinct fs

  find-AllDistinct :
      (k : K) (fs : Fields K L) (v : Yaml K L)
      → FieldsDistinct fs
      → find k fs ≡ some v
      → AllDistinct v
  unfolding find FieldsDistinct
  find-AllDistinct k no_fields v d h = cc
  find-AllDistinct k (field j w fs) v d h = elim (Bool-cases (j == k)) [
    | inl same ↦ subst (λ t. AllDistinct t) (some_injective (rw same at h)) d.0
    | inr other ↦ find-AllDistinct k fs v d.1 (rw other at h)
  ]
    where
      some_injective : some w ≡ some v → w ≡ v
      some_injective e' = cc

  -- Whatever stands in the base, a leaf that the override has at a path is what the merged value has
  -- there, where the keys of the override's mappings are distinct.
  pub merge_found-leaf :
      (ks : List K) (base : Option (Yaml K L)) (over : Yaml K L) (l : L)
      → AllDistinct over
      → at ks over ≡ some (leaf l)
      → at ks (merge_found base over) ≡ some (leaf l)
  unfolding at merge_found AllDistinct
  merge_found-leaf [] base (leaf m) l d h = h
  merge_found-leaf [] base (mapping fs) l d h = cc
  merge_found-leaf (k ∷ ks) base (leaf m) l d h = cc
  merge_found-leaf (k ∷ ks) none (mapping fs) l d h = h
  merge_found-leaf (k ∷ ks) (some (leaf b)) (mapping fs) l d h = h
  merge_found-leaf (k ∷ ks) (some (mapping bs)) (mapping fs) l d h =
      elim (Option-cases (find k fs)) [
        | inl missing ↦ absurd (clash (rw missing at h))
        | inr (v, found) ↦
            let inside =
              merge_found-leaf ks (find k bs) v l (find-AllDistinct k fs v d.1 found)
                (rw found at h) in
            rw (find-merge_fields k bs fs d.0) (rw found inside)
      ]
    where
      clash : ◌≡◌ {A = Option (Yaml K L)} none (some (leaf l)) → ⊥
      clash e' = cc
