-- ===== src/Base/Maps.antt =====
-- Hash maps as association lists. An operation keeps at most one pair for a key.
use mathlib.Core.Path.{◌≡◌, refl, ◌∙◌}
use mathlib.Core.Bool.{Bool, false}
use mathlib.Core.List.{List, [], ◌∷◌}
use mathlib.Core.Option.{Option, none, some}
use native.Mathlib.Omega.{arith}
use Prim.Native.Nat.{◌+◌}
use rustservicelib.Base.Tests.{Eq, ◌==◌, beq_refl, if◌then◌else◌, is_some, map_option, or_else}
use rustservicelib.Base.Lists.{length}

module _ {ℓ κ} {K : Type ℓ} {V : Type κ} ⦃e : Eq K⦄ where
  -- `HashMap::get`.
  unfoldable pub lookup : K → List (K × V) → Option V
  lookup k [] = none
  lookup k ((j, v) ∷ m) = if j == k then some v else lookup k m

  abbrev pub contains_key : K → List (K × V) → Bool
  contains_key k m = is_some (lookup k m)

  -- `HashMap::insert`, which replaces the value of a key that is there.
  unfoldable pub insert : K → V → List (K × V) → List (K × V)
  insert k v [] = (k, v) ∷ []
  insert k v ((j, old) ∷ rest) = if j == k then (k, v) ∷ rest else (j, old) ∷ insert k v rest

  -- `HashMap::remove`.
  unfoldable pub remove : K → List (K × V) → List (K × V)
  remove k [] = []
  remove k ((j, w) ∷ m) = let rest = remove k m in if j == k then rest else (j, w) ∷ rest

  -- A write through `HashMap::get_mut`.
  unfoldable pub modify : K → (V → V) → List (K × V) → List (K × V)
  modify k f [] = []
  modify k f ((j, w) ∷ m) = if j == k then (j, f w) ∷ m else (j, w) ∷ modify k f m

  pub lookup-insert :
      (k j : K) (v : V) (m : List (K × V))
      → lookup j (insert k v m) ≡ (if k == j then some v else lookup j m)
  unfolding lookup insert
  lookup-insert k j v [] = refl
  lookup-insert k j v ((i, old) ∷ rest) =
      ground (arith, e.beq_iff i k, e.beq_iff i j, e.beq_iff k j, lookup-insert k j v rest)

  pub lookup-remove :
      (k j : K) (m : List (K × V)) → lookup j (remove k m) ≡ (if k == j then none else lookup j m)
  unfolding lookup remove
  lookup-remove k j [] = ground arith
  lookup-remove k j ((i, w) ∷ m) =
      ground (arith, e.beq_iff k j, e.beq_iff i k, e.beq_iff i j, lookup-remove k j m)

  pub lookup-modify :
      (k j : K) (f : V → V) (m : List (K × V))
      → lookup j (modify k f m) ≡ (if k == j then map_option f (lookup j m) else lookup j m)
  unfolding lookup modify
  lookup-modify k j f [] = ground arith
  lookup-modify k j f ((i, w) ∷ m) =
      ground (arith, e.beq_iff k j, e.beq_iff i k, e.beq_iff i j, lookup-modify k j f m)

  pub lookup-insert_self : (k : K) (v : V) (m : List (K × V)) → lookup k (insert k v m) ≡ some v
  lookup-insert_self k v m = lookup-insert k k v m ∙ rw (beq_refl k)

  pub lookup-insert_ne :
      (k j : K) (v : V) (m : List (K × V)) → (k == j) ≡ false → lookup j (insert k v m) ≡ lookup j m
  lookup-insert_ne k j v m h = lookup-insert k j v m ∙ rw h

  pub lookup-modify_self :
      (k : K) (f : V → V) (m : List (K × V)) → lookup k (modify k f m) ≡ map_option f (lookup k m)
  lookup-modify_self k f m = lookup-modify k k f m ∙ rw (beq_refl k)

  pub lookup-modify_ne :
      (k j : K) (f : V → V) (m : List (K × V))
      → (k == j) ≡ false
      → lookup j (modify k f m) ≡ lookup j m
  lookup-modify_ne k j f m h = lookup-modify k j f m ∙ rw h

  pub lookup-remove_ne :
      (k j : K) (m : List (K × V)) → (k == j) ≡ false → lookup j (remove k m) ≡ lookup j m
  lookup-remove_ne k j m h = lookup-remove k j m ∙ rw h

  pub lookup-remove-none :
      (k j : K) (m : List (K × V)) → lookup j m ≡ none → lookup j (remove k m) ≡ none
  lookup-remove-none k j m h = lookup-remove k j m ∙ ground arith

  pub lookup-modify-none :
      (k j : K) (f : V → V) (m : List (K × V)) → lookup j m ≡ none → lookup j (modify k f m) ≡ none
  lookup-modify-none k j f m h = lookup-modify k j f m ∙ rw h (ground arith)

  -- No key stands in two pairs.
  abbrev pub IsMap : List (K × V) → Type κ
  IsMap [] = Unit
  IsMap ((k, v) ∷ m) = (lookup k m ≡ none) × IsMap m

  pub insert-IsMap : (k : K) (v : V) (m : List (K × V)) → IsMap m → IsMap (insert k v m)
  unfolding insert lookup
  insert-IsMap k v [] h = (refl, tt)
  insert-IsMap k v ((j, w) ∷ m) h =
      ground (arith, e.beq_iff j k, e.beq_iff k j, lookup-insert k j v m, insert-IsMap k v m h.1)

  pub remove-IsMap : (k : K) (m : List (K × V)) → IsMap m → IsMap (remove k m)
  unfolding remove lookup
  remove-IsMap k [] h = tt
  remove-IsMap k ((j, w) ∷ m) h = ground (arith, lookup-remove k j m, remove-IsMap k m h.1)

  pub modify-IsMap : (k : K) (f : V → V) (m : List (K × V)) → IsMap m → IsMap (modify k f m)
  unfolding modify lookup
  modify-IsMap k f [] h = tt
  modify-IsMap k f ((j, w) ∷ m) h =
      ground (arith, e.beq_iff j k, e.beq_iff k j, lookup-modify k j f m, modify-IsMap k f m h.1)

  pub length-insert :
      (k : K) (v : V) (m : List (K × V))
      → length (insert k v m) ≡ (if contains_key k m then length m else length m + 1)
  unfolding insert lookup
  length-insert k v [] = refl
  length-insert k v ((j, w) ∷ m) = ground (arith, length-insert k v m)

  pub remove_missing : (k : K) (m : List (K × V)) → lookup k m ≡ none → remove k m ≡ m
  unfolding remove lookup
  remove_missing k [] h = refl
  remove_missing k ((j, w) ∷ m) h = ground (arith, remove_missing k m)

  pub length-remove :
      (k : K) (m : List (K × V))
      → IsMap m
      → length m ≡ (if contains_key k m then length (remove k m) + 1 else length (remove k m))
  unfolding remove lookup
  length-remove k [] h = refl
  length-remove k ((j, w) ∷ m) h =
      ground (arith, e.beq_iff j k, remove_missing k m, length-remove k m h.1)

  pub length-modify : (k : K) (f : V → V) (m : List (K × V)) → length (modify k f m) ≡ length m
  unfolding modify
  length-modify k f [] = refl
  length-modify k f ((j, w) ∷ m) = ground (arith, length-modify k f m)

  pub length-insert_new :
      (k : K) (v : V) (m : List (K × V)) → lookup k m ≡ none → length (insert k v m) ≡ length m + 1
  length-insert_new k v m h = length-insert k v m ∙ rw h

  pub length-remove_found :
      (k : K) (v : V) (m : List (K × V))
      → IsMap m
      → lookup k m ≡ some v
      → length m ≡ length (remove k m) + 1
  length-remove_found k v m u h = length-remove k m u ∙ rw h

  -- Pairs that are inserted one after the other, as `HashMap::extend` does.
  unfoldable pub insert_all : List (K × V) → List (K × V) → List (K × V)
  insert_all [] m = m
  insert_all ((k, v) ∷ xs) m = insert_all xs (insert k v m)

  pub lookup-insert_all :
      (j : K) (xs m : List (K × V))
      → IsMap xs
      → lookup j (insert_all xs m) ≡ or_else (lookup j xs) (lookup j m)
  unfolding insert_all lookup
  lookup-insert_all j [] m u = refl
  lookup-insert_all j ((k, v) ∷ xs) m u =
      lookup-insert_all j xs (insert k v m) u.1
      ∙ ground (arith, e.beq_iff k j, lookup-insert k j v m)

  pub insert_all-IsMap : (xs m : List (K × V)) → IsMap m → IsMap (insert_all xs m)
  unfolding insert_all
  insert_all-IsMap [] m u = u
  insert_all-IsMap ((k, v) ∷ xs) m u = insert_all-IsMap xs (insert k v m) (insert-IsMap k v m u)
