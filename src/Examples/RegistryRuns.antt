-- ===== src/Examples/RegistryRuns.antt =====
-- Two services of one registry: a serde from a provider, and one that came between the locks.
use rustservicelib.Base.{ℕ, List, [], ◌∷◌, Option, none, some, ◌≡◌, refl, lookup, insert}
use rustservicelib.Serde.Registry.{
  TypeId, Serializer, Result, RegistryState, Write, vec_of, other_type, u8, custom_serde,
  bytes_serde, found, ok, err, duplicate_resource, sets, gets, caches, new, look, select, store,
  get, cache, set_provider, typed, default_serializer, write, writes,
}
use rustservicelib.Serde.Registry.Laws.{get_stays}

-- A provider with a serde for one type of the application.
abbrev provide : ℕ → TypeId → Result (Option Serializer)
provide p (other_type n) = ok (some (record { value_type = other_type n; serde = custom_serde p }))
provide p t = ok none

abbrev with_provider : RegistryState
with_provider = (set_provider (some 1) 5 new).1

custom_run :
    (get provide (some 1, other_type 9) with_provider with_provider).0 ≡ ok (custom_serde 5)
unfolding get look select store typed set_provider new lookup insert default_serializer
custom_run = refl

bytes_run : (get provide (some 1, vec_of u8) with_provider with_provider).0 ≡ ok bytes_serde
unfolding get look select store typed set_provider new lookup insert default_serializer
bytes_run = refl

-- Between the locks another thread caches a serde, which then stays.
abbrev between : List Write
between = caches (some 1, other_type 9) (custom_serde 7) ∷ []

abbrev after : List Write
after = gets (some 1, other_type 9) new ∷ sets (some 2) 6 ∷ []

abbrev met : RegistryState
met = (get provide (some 1, other_type 9) with_provider (writes provide between with_provider)).1

get_stays_example :
    (look (some 1, other_type 9) (writes provide after met) ≡ found (ok (custom_serde 7)))
    × ((set_provider (some 1) 8 (writes provide after met)).0 ≡ err duplicate_resource)
unfolding get look select store typed set_provider new lookup insert default_serializer writes write
    cache
get_stays_example =
    get_stays provide (some 1, other_type 9) with_provider between after (custom_serde 7) 8 refl
