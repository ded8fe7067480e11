-- ===== src/Base/Cells.antt =====
-- Cells by their position, as `Vec` and the handles of shared objects use them.
use Prim.Native.Nat.{ℕ, zero, suc, ◌+◌, ◌<◌}
use mathlib.Core.Path.{◌≡◌, refl, ap}
use mathlib.Core.Logic.{◌⊎◌, inl, inr}
use mathlib.Core.Bool.{Bool, false}
use mathlib.Core.List.{List, [], ◌∷◌, ◌++◌}
use mathlib.Core.Option.{some}
use native.Mathlib.Omega.{arith}
use rustservicelib.Base.Tests.{◌==◌, nat_eq, map_option, if◌then◌else◌}
use rustservicelib.Base.Lists.{length, get_elem?}

module _ {ℓ} {A : Type ℓ} where
  -- A write to the cell at a position. Nothing changes where there is none.
  unfoldable pub modify_at : ℕ → (A → A) → List A → List A
  modify_at i f [] = []
  modify_at zero f (x ∷ xs) = f x ∷ xs
  modify_at (suc i) f (x ∷ xs) = x ∷ modify_at i f xs

  pub get_elem?-modify_at :
      (i : ℕ) (f : A → A) (xs : List A)
      → get_elem? (modify_at i f xs) i ≡ map_option f (get_elem? xs i)
  unfolding modify_at
  get_elem?-modify_at i f [] = refl
  get_elem?-modify_at zero f (x ∷ xs) = refl
  get_elem?-modify_at (suc i) f (x ∷ xs) = get_elem?-modify_at i f xs

  pub get_elem?-modify_at_ne :
      (i j : ℕ) (f : A → A) (xs : List A)
      → (i == j) ≡ false
      → get_elem? (modify_at i f xs) j ≡ get_elem? xs j
  unfolding modify_at
  get_elem?-modify_at_ne i j f [] h = refl
  get_elem?-modify_at_ne zero zero f (x ∷ xs) h = absurd (ground arith)
  get_elem?-modify_at_ne zero (suc j) f (x ∷ xs) h = refl
  get_elem?-modify_at_ne (suc i) zero f (x ∷ xs) h = refl
  get_elem?-modify_at_ne (suc i) (suc j) f (x ∷ xs) h =
      get_elem?-modify_at_ne i j f xs (ground (arith, h))

  pub length-modify_at : (i : ℕ) (f : A → A) (xs : List A) → length (modify_at i f xs) ≡ length xs
  unfolding modify_at
  length-modify_at i f [] = refl
  length-modify_at zero f (x ∷ xs) = refl
  length-modify_at (suc i) f (x ∷ xs) = ap suc (length-modify_at i f xs)

  pub get_elem?-below : (i : ℕ) (x : A) (xs : List A) → get_elem? xs i ≡ some x → i < length xs
  get_elem?-below i x [] h = absurd cc
  get_elem?-below zero x (y ∷ xs) h = omega arith
  get_elem?-below (suc i) x (y ∷ xs) h = omega (arith, get_elem?-below i x xs h)

  pub get_elem?-append :
      (i : ℕ) (x : A) (xs ys : List A) → get_elem? xs i ≡ some x → get_elem? (xs ++ ys) i ≡ some x
  get_elem?-append i x [] ys h = absurd cc
  get_elem?-append zero x (y ∷ xs) ys h = h
  get_elem?-append (suc i) x (y ∷ xs) ys h = get_elem?-append i x xs ys h

  pub get_elem?-append_length :
      (x : A) (xs : List A) → get_elem? (xs ++ x ∷ []) (length xs) ≡ some x
  get_elem?-append_length x [] = refl
  get_elem?-append_length x (y ∷ xs) = get_elem?-append_length x xs

  -- What stands in a list with one more cell stood there before, or is the new cell.
  pub append-cases :
      (i : ℕ) (x y : A) (xs : List A)
      → get_elem? (xs ++ y ∷ []) i ≡ some x
      → (get_elem? xs i ≡ some x) ⊎ ((i ≡ length xs) × (x ≡ y))
  append-cases zero x y [] h = inr (refl, cc)
  append-cases (suc i) x y [] h = absurd cc
  append-cases zero x y (z ∷ xs) h = inl h
  append-cases (suc i) x y (z ∷ xs) h = elim (append-cases i x y xs h) [
    | inl old ↦ inl old
    | inr (at, new) ↦ inr (ap suc at, new)
  ]

  abbrev pub one_of : (A → Bool) → A → ℕ
  one_of p a = if p a then 1 else 0

  -- A measure summed over the cells.
  abbrev pub total : (A → ℕ) → List A → ℕ
  total g [] = 0
  total g (x ∷ xs) = g x + total g xs

  pub total-append : (g : A → ℕ) (xs ys : List A) → total g (xs ++ ys) ≡ total g xs + total g ys
  total-append g [] ys = omega arith
  total-append g (x ∷ xs) ys = omega (arith, total-append g xs ys)

  pub total-modify_at :
      (g : A → ℕ) (i : ℕ) (f : A → A) (x : A) (xs : List A)
      → get_elem? xs i ≡ some x
      → total g (modify_at i f xs) + g x ≡ total g xs + g (f x)
  unfolding modify_at
  total-modify_at g i f x [] h = absurd cc
  total-modify_at g zero f x (y ∷ xs) h =
      let same : y ≡ x = cc in omega (arith, ap g same, ap (λ z. g (f z)) same)
  total-modify_at g (suc i) f x (y ∷ xs) h = omega (arith, total-modify_at g i f x xs h)

  pub total-modify_at_same :
      (g : A → ℕ) (i : ℕ) (f : A → A) (xs : List A)
      → ((x : A) → g (f x) ≡ g x)
      → total g (modify_at i f xs) ≡ total g xs
  unfolding modify_at
  total-modify_at_same g i f [] h = refl
  total-modify_at_same g zero f (y ∷ xs) h = omega (arith, h y)
  total-modify_at_same g (suc i) f (y ∷ xs) h = omega (arith, total-modify_at_same g i f xs h)

  -- What stands in a list after a write stood there before, or was written over what stood there.
  pub modify_at-cases :
      (i j : ℕ) (f : A → A) (y : A) (xs : List A)
      → get_elem? (modify_at i f xs) j ≡ some y
      → (x : A) × (get_elem? xs j ≡ some x) × ((y ≡ x) ⊎ ((i ≡ j) × (y ≡ f x)))
  unfolding modify_at
  modify_at-cases i j f y [] h = absurd cc
  modify_at-cases zero zero f y (x ∷ xs) h = (x, refl, inr (refl, cc))
  modify_at-cases zero (suc j) f y (x ∷ xs) h = (y, h, inl refl)
  modify_at-cases (suc i) zero f y (x ∷ xs) h = (x, refl, inl cc)
  modify_at-cases (suc i) (suc j) f y (x ∷ xs) h =
      let (z, at, how) = modify_at-cases i j f y xs h in
      (z, at, elim how [ inl same ↦ inl same | inr (hit, new) ↦ inr (ap suc hit, new) ])
