-- ===== src/Examples/StoreRuns.antt =====
-- Runs of the rotating map, with the identity as the hash.
use Prim.Native.String.{String}
use rustservicelib.Base.{
  ℕ, none, some, true, false, ◌==◌, nat_eq, ◌≡◌, ◌⊎◌, if◌then◌else◌, or_else, is_some,
}
use rustservicelib.Store.Rotating.{
  RotatingMap, ok, duplicate_key, get, set, get_or_create, pop, pop_if, rotate, new,
}
use rustservicelib.Store.Rotating.Laws.{
  IsValid, new-IsValid, set_refines, get_or_create_refines, pop_refines, pop_if_refines,
  rotate_refines,
}

abbrev hash : ℕ → ℕ
hash k = k

abbrev empty_map : RotatingMap ℕ String
empty_map = new 2

-- Key 3 in its shard, which is rotated once, and key 67 in the same shard.
abbrev stored_map : RotatingMap ℕ String
stored_map = (get_or_create hash 67 "b" (rotate (get_or_create hash 3 "a" empty_map).2)).2

stored_map-IsValid : IsValid stored_map
stored_map-IsValid =
    (get_or_create_refines hash 67 "b" (rotate (get_or_create hash 3 "a" empty_map).2)
      (rotate_refines hash (get_or_create hash 3 "a" empty_map).2
        (get_or_create_refines hash 3 "a" empty_map (new-IsValid 2)).1).0).1

set_refines_example :
    (get hash 3 stored_map ≡ none)
      × ((r : RotatingMap ℕ String) × (set hash 3 "c" stored_map ≡ ok r)
          × IsValid r
          × ((j : ℕ) → get hash j r ≡ (if 3 == j then some "c" else get hash j stored_map)))
    ⊎ ((y : String) × (get hash 3 stored_map ≡ some y)
        × (set hash 3 "c" stored_map ≡ duplicate_key))
set_refines_example = set_refines hash 3 "c" stored_map stored_map-IsValid

get_or_create_refines_example :
    let c = get_or_create hash 3 "c" stored_map in
    (c.1 ≡ is_some (get hash 3 stored_map))
    × IsValid c.2
    × (some c.0 ≡ or_else (get hash 3 stored_map) (some "c"))
    × ((j : ℕ) → get hash j c.2 ≡ (if 3 == j then some c.0 else get hash j stored_map))
get_or_create_refines_example = get_or_create_refines hash 3 "c" stored_map stored_map-IsValid

pop_refines_example :
    ((pop hash 67 stored_map).0 ≡ get hash 67 stored_map)
    × IsValid (pop hash 67 stored_map).1
    × ((j : ℕ)
        → get hash j (pop hash 67 stored_map).1 ≡ (if 67 == j then none else get hash j stored_map))
pop_refines_example = pop_refines hash 67 stored_map stored_map-IsValid

pop_if_refines_example :
    let c = pop_if hash 3 (λ x. true) stored_map in
    ((x : String) × (get hash 3 stored_map ≡ some x) × (true ≡ true) × (c ≡ pop hash 3 stored_map))
    ⊎ (((get hash 3 stored_map ≡ none)
          ⊎ ((x : String) × (get hash 3 stored_map ≡ some x) × (true ≡ false)))
        × (c.0 ≡ none)
        × ((j : ℕ) → get hash j c.1 ≡ get hash j stored_map))
pop_if_refines_example = pop_if_refines hash 3 (λ x. true) stored_map

rotate_refines_example :
    IsValid (rotate stored_map) × ((j : ℕ) → get hash j (rotate stored_map) ≡ get hash j stored_map)
rotate_refines_example = rotate_refines hash stored_map stored_map-IsValid
