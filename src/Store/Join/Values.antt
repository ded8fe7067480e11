-- ===== src/Store/Join/Values.antt =====
-- The value lists of a group in src/runtime/store/hashmap.rs, by their index.
use rustservicelib.Base.{
  one_of, ℕ, zero, suc, ◌+◌, ◌-◌, ◌<◌, List, [], ◌∷◌, ◌++◌, Option, none, some, Bool, ◌==◌, nat_eq,
  leb, length, get_elem?, modify_at, replicate, length-append, get_elem?-modify_at_ne, total,
  total-append, if◌then◌else◌, ◌≡◌, refl, ◌∙◌, ap, inl, inr, Bool-cases, arith,
}
use rustservicelib.Store.Join.{resize, push_value}

module _ {ℓ} {A : Type ℓ} where
  abbrev pub or_empty : Option (List A) → List A
  or_empty none = []
  or_empty (some l) = l

  -- The values at an index, where there may be no list yet.
  abbrev pub list_at : ℕ → List (List A) → List A
  list_at j values = or_empty (get_elem? values j)

  abbrev pub count_at : ℕ → (A → Bool) → List (List A) → ℕ
  count_at j p values = total (one_of p) (list_at j values)

  list_at-replicate : (j n : ℕ) → list_at j (replicate n []) ≡ []
  list_at-replicate j zero = refl
  list_at-replicate zero (suc n) = refl
  list_at-replicate (suc j) (suc n) = list_at-replicate j n

  list_at-resize :
      (j n : ℕ) (values : List (List A)) → list_at j (values ++ replicate n []) ≡ list_at j values
  list_at-resize j n [] = list_at-replicate j n
  list_at-resize zero n (l ∷ ls) = refl
  list_at-resize (suc j) n (l ∷ ls) = list_at-resize j n ls

  length-replicate : (n : ℕ) (l : List A) → length (replicate n l) ≡ n
  length-replicate zero l = refl
  length-replicate (suc n) l = ap suc (length-replicate n l)

  list_at-modify_at :
      (n : ℕ) (f : List A → List A) (values : List (List A))
      → n < length values
      → list_at n (modify_at n f values) ≡ f (list_at n values)
  unfolding modify_at
  list_at-modify_at n f [] h = absurd (omega (arith, h))
  list_at-modify_at zero f (l ∷ ls) h = refl
  list_at-modify_at (suc n) f (l ∷ ls) h = list_at-modify_at n f ls (omega (arith, h))

  abbrev enlarged : ℕ → List (List A) → List (List A)
  enlarged n values = if leb (length values) n then resize (n + 1) values else values

  list_at-enlarged :
      (j n : ℕ) (values : List (List A)) → list_at j (enlarged n values) ≡ list_at j values
  unfolding resize
  list_at-enlarged j n values = elim (Bool-cases (leb (length values) n)) [
    | inl short ↦ rw short (list_at-resize j (n + 1 - length values) values)
    | inr long ↦ rw long refl
  ]

  length-enlarged : (n : ℕ) (values : List (List A)) → n < length (enlarged n values)
  unfolding resize
  length-enlarged n values = elim (Bool-cases (leb (length values) n)) [
    | inl short ↦ rw short (
        ground (
          arith,
          short,
          length-append values (replicate (n + 1 - length values) []),
          length-replicate (n + 1 - length values) [],
        ))
    | inr long ↦ rw long (ground (arith, long))
  ]

  -- A pushed value ends the list of its index, and the other lists are as they were.
  pub list_at-push_value :
      (j n : ℕ) (a : A) (values : List (List A))
      → list_at j (push_value n a values)
        ≡ (if n == j then list_at j values ++ a ∷ [] else list_at j values)
  unfolding push_value
  list_at-push_value j n a values = elim (Bool-cases (n == j)) [
    | inl same ↦
        let nj : n ≡ j = ground (arith, same) in
        rw same (
          rw (← nj) (
            list_at-modify_at n (λ l. l ++ a ∷ []) (enlarged n values) (length-enlarged n values)
            ∙ ap (λ (l : List A). l ++ a ∷ []) (list_at-enlarged n n values)))
    | inr apart ↦ rw apart (
        ap or_empty (get_elem?-modify_at_ne n j (λ l. l ++ a ∷ []) (enlarged n values) apart)
        ∙ list_at-enlarged j n values)
  ]

  pub count_at-push_value :
      (j n : ℕ) (p : A → Bool) (a : A) (values : List (List A))
      → count_at j p (push_value n a values)
        ≡ count_at j p values + (if n == j then one_of p a else 0)
  count_at-push_value j n p a values = elim (Bool-cases (n == j)) [
    | inl same ↦
        let pushed : list_at j (push_value n a values) ≡ list_at j values ++ a ∷ [] =
          list_at-push_value j n a values ∙ rw same refl in
        rw same (
          ap (total (one_of p)) pushed
          ∙ omega (arith, total-append (one_of p) (list_at j values) (a ∷ [])))
    | inr apart ↦
        let kept : list_at j (push_value n a values) ≡ list_at j values =
          list_at-push_value j n a values ∙ rw apart refl in
        rw apart (omega (arith, ap (total (one_of p)) kept))
  ]
