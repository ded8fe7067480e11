-- ===== src/Pool/Fifo/Tally.antt =====
-- How many of the tasks of a FIFO queue pass a test, whatever their nodes and their order.
use rustservicelib.Base.{
  ℕ, ◌+◌, List, [], ◌∷◌, Option, none, some, Bool, ◌==◌, Eq, nat_eq, lookup, remove, length, IsMap,
  total, one_of, length-remove_found, remove-IsMap, arith, ◌≡◌, refl, sym, ◌∙◌, ap, Bool-cases,
  Option-cases, inl, inr, remove_missing, some_eq,
}
use rustservicelib.Pool.Fifo.{FifoEntry, Fifo}
use rustservicelib.Pool.Fifo.Links.{Distinct, Seg, Seg-remove}
use rustservicelib.Pool.Fifo.Refine.{Represents}
use rustservicelib.Pool.Fifo.Reference.{take_out, list_promote}

module _ {ℓ κ} {K : Type ℓ} {V : Type κ} ⦃e : Eq K⦄ where
  pub total-remove_found :
      (g : K × V → ℕ) (k : K) (v : V) (m : List (K × V))
      → IsMap m
      → lookup k m ≡ some v
      → total g m ≡ g (k, v) + total g (remove k m)
  unfolding lookup remove
  total-remove_found g k v [] u h = absurd cc
  total-remove_found g k v ((j, w) ∷ m) u h = elim (Bool-cases (j == k)) [
    | inl same ↦
        let j_eq : j ≡ k = (e.beq_iff j k).0 same in
        let w_eq : w ≡ v = some_eq (sym (rw same refl) ∙ h) in
        let rest : remove k m ≡ m = remove_missing k m (ap (λ i. lookup i m) (sym j_eq) ∙ u.0) in
        rw (same, rest)
          (ap (λ (x : K × V). g x + total g m) (ap (λ i. (i, w)) j_eq ∙ ap (λ x. (k, x)) w_eq))
    | inr other ↦
        let found : lookup k m ≡ some v = sym (rw other refl) ∙ h in
        rw other (omega (arith, total-remove_found g k v m u.1 found))
  ]

module _ {ℓ} {E : Type ℓ} where
  abbrev pub node_test : (E → Bool) → ℕ × FifoEntry E → ℕ
  node_test v x = one_of v x.1.entry

  abbrev pub task_test : (E → Bool) → ℕ × E → ℕ
  task_test v x = one_of v x.1

  Seg-total :
      (v : E → Bool) (xs : List (ℕ × E)) (m : List (ℕ × FifoEntry E)) (p n : Option ℕ)
      → Seg m p xs n
      → Distinct xs
      → IsMap m
      → length m ≡ length xs
      → total (node_test v) m ≡ total (task_test v) xs
  Seg-total v [] [] p n s d u l = refl
  Seg-total v [] (x ∷ m) p n s d u l = absurd (omega (arith, l))
  Seg-total v ((i, e) ∷ xs) m p n (at, s) (out, d) u l =
      let fewer = length-remove_found i _ m u at in
      omega (
        arith,
        total-remove_found (node_test v) i _ m u at,
        Seg-total v xs (remove i m) (some i) n (Seg-remove i m (some i) xs n out s) d
            (remove-IsMap i m u) (omega (arith, fewer, l)),
      )

  pub Represents-total :
      (v : E → Bool) (q : Fifo E) (xs : List (ℕ × E))
      → Represents q xs
      → total (node_test v) q.entries ≡ total (task_test v) xs
  Represents-total v q xs h =
      Seg-total v xs q.entries none none h.linked h.distinct h.is_map h.counted

  take_out-total :
      (g : ℕ × E → ℕ) (id : ℕ) (xs : List (ℕ × E)) (e : E) (rest : List (ℕ × E))
      → take_out id xs ≡ some (e, rest)
      → total g xs ≡ g (id, e) + total g rest
  unfolding take_out
  take_out-total g id [] e rest h = absurd cc
  take_out-total g id ((j, f) ∷ xs) e rest h = elim (Bool-cases (j == id)) [
    | inl same ↦
        let both : ◌≡◌ {A = E × List (ℕ × E)} (f, xs) (e, rest) =
          some_eq (sym (rw same refl) ∙ h) in
        ap (λ (i : ℕ). g (i, f) + total g xs) ((nat_eq.beq_iff j id).0 same)
        ∙ ap (λ (r : E × List (ℕ × E)). g (id, r.0) + total g r.1) both
    | inr other ↦ elim (Option-cases (take_out id xs)) [
      | inl missing ↦ absurd (ground arith)
      | inr (found, at) ↦
          let both : ◌≡◌ {A = E × List (ℕ × E)} (found.0, (j, f) ∷ found.1) (e, rest) =
            some_eq (sym (rw (other, at) refl) ∙ h) in
          let later = take_out-total g id xs found.0 found.1 at in
          let here : g (j, f) + total g xs ≡ g (id, found.0) + (g (j, f) + total g found.1) =
            omega (arith, later) in
          here ∙ ap (λ (r : E × List (ℕ × E)). g (id, r.0) + total g r.1) both
    ]
  ]

  -- A promotion keeps the tasks.
  pub list_promote-total :
      (g : ℕ × E → ℕ) (id : ℕ) (xs : List (ℕ × E)) → total g (list_promote id xs).1 ≡ total g xs
  unfolding list_promote
  list_promote-total g id [] = refl
  list_promote-total g id ((j, f) ∷ xs) = elim (Bool-cases (j == id)) [
    | inl same ↦ rw same refl
    | inr other ↦ elim (Option-cases (take_out id xs)) [
      | inl missing ↦ rw (other, missing) refl
      | inr (found, at) ↦ rw (other, at) (omega (arith, take_out-total g id xs found.0 found.1 at))
    ]
  ]
