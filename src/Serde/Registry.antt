-- ===== src/Serde/Registry.antt =====
-- src/runtime/serde/registry.rs: the serdes of a service by the type of their values. A provider and a
-- serde of the application are numbers, and what a provider answers is a parameter. A `get` reads and
-- writes the registry under two locks, and other operations may come between.
pub mod Laws
use Prim.Native.String.{String}
use rustservicelib.Base.{
  ℕ, List, [], ◌∷◌, Option, none, some, Bool, true, false, ◌==◌, Eq, nat_eq, beq_refl, lookup,
  insert, get_elem?, is_some, if◌then◌else◌, ◌&&◌, ◌||◌, lookup-insert, ◌≡◌, refl, sym, ◌∙◌, ap,
  ◌↔◌, inl, inr, ◌⊎◌, Bool-cases, Option-cases, some_eq, arith,
}

-- The types that `default_serializer` knows.
pub data Scalar : Type 0 where
  bool : Scalar
  char : Scalar
  i8 : Scalar
  i16 : Scalar
  i32 : Scalar
  i64 : Scalar
  u8 : Scalar
  u16 : Scalar
  u32 : Scalar
  u64 : Scalar
  f32 : Scalar
  f64 : Scalar
  string : Scalar

-- `TypeId`, with the other types as numbers.
pub data TypeId : Type 0 where
  scalar : Scalar → TypeId
  vec_of : Scalar → TypeId
  other_type : ℕ → TypeId

pub data Serde : Type 0 where
  bytes_serde : Serde
  scalar_serde : Scalar → Serde
  array_serde : Scalar → Serde
  stub_serde : Serde
  custom_serde : ℕ → Serde

-- A serde with its type erased.
pub record Serializer : Type 0 where
  pub value_type : TypeId
  pub serde : Serde

pub data RegistryError : Type 0 where
  duplicate_resource : RegistryError
  invalid_configuration : RegistryError
  provider_error : String → RegistryError

pub data Result {ℓ} (A : Type ℓ) : Type ℓ where
  ok : A → Result A
  err : RegistryError → Result A

abbrev scalar_code : Scalar → ℕ
scalar_code bool = 0
scalar_code char = 1
scalar_code i8 = 2
scalar_code i16 = 3
scalar_code i32 = 4
scalar_code i64 = 5
scalar_code u8 = 6
scalar_code u16 = 7
scalar_code u32 = 8
scalar_code u64 = 9
scalar_code f32 = 10
scalar_code f64 = 11
scalar_code string = 12

-- The scalars in the order of their codes.
abbrev scalars : List Scalar
scalars = bool ∷ char ∷ i8 ∷ i16 ∷ i32 ∷ i64 ∷ u8 ∷ u16 ∷ u32 ∷ u64 ∷ f32 ∷ f64 ∷ string ∷ []

abbrev or_bool : Option Scalar → Scalar
or_bool none = bool
or_bool (some s) = s

abbrev scalar_of : ℕ → Scalar
scalar_of n = or_bool (get_elem? scalars n)

scalar_of-scalar_code : (s : Scalar) → scalar_of (scalar_code s) ≡ s
scalar_of-scalar_code bool = refl
scalar_of-scalar_code char = refl
scalar_of-scalar_code i8 = refl
scalar_of-scalar_code i16 = refl
scalar_of-scalar_code i32 = refl
scalar_of-scalar_code i64 = refl
scalar_of-scalar_code u8 = refl
scalar_of-scalar_code u16 = refl
scalar_of-scalar_code u32 = refl
scalar_of-scalar_code u64 = refl
scalar_of-scalar_code f32 = refl
scalar_of-scalar_code f64 = refl
scalar_of-scalar_code string = refl

scalar_code_injective : (a b : Scalar) → scalar_code a ≡ scalar_code b → a ≡ b
scalar_code_injective a b h =
    sym (scalar_of-scalar_code a) ∙ ap scalar_of h ∙ scalar_of-scalar_code b

abbrev type_beq : TypeId → TypeId → Bool
type_beq (scalar a) (scalar b) = scalar_code a == scalar_code b
type_beq (vec_of a) (vec_of b) = scalar_code a == scalar_code b
type_beq (other_type a) (other_type b) = a == b
type_beq _ _ = false

pub type_beq_iff : (x y : TypeId) → (type_beq x y ≡ true) ↔ (x ≡ y)
type_beq_iff (scalar a) (scalar b) = (
  λ h. ap scalar (scalar_code_injective a b ((nat_eq.beq_iff (scalar_code a) (scalar_code b)).0 h)),
  λ h. ap (type_beq (scalar a)) (sym h) ∙ beq_refl (scalar_code a),
)
type_beq_iff (scalar a) (vec_of b) = (λ h. absurd cc, λ h. absurd cc)
type_beq_iff (scalar a) (other_type b) = (λ h. absurd cc, λ h. absurd cc)
type_beq_iff (vec_of a) (scalar b) = (λ h. absurd cc, λ h. absurd cc)
type_beq_iff (vec_of a) (vec_of b) = (
  λ h. ap vec_of (scalar_code_injective a b ((nat_eq.beq_iff (scalar_code a) (scalar_code b)).0 h)),
  λ h. ap (type_beq (vec_of a)) (sym h) ∙ beq_refl (scalar_code a),
)
type_beq_iff (vec_of a) (other_type b) = (λ h. absurd cc, λ h. absurd cc)
type_beq_iff (other_type a) (scalar b) = (λ h. absurd cc, λ h. absurd cc)
type_beq_iff (other_type a) (vec_of b) = (λ h. absurd cc, λ h. absurd cc)
type_beq_iff (other_type a) (other_type b) = (
  λ h. ap other_type ((nat_eq.beq_iff a b).0 h),
  λ h. ap (type_beq (other_type a)) (sym h) ∙ beq_refl a,
)

instance abbrev pub type_eq : Eq TypeId
type_eq = record { beq = type_beq; beq_iff = type_beq_iff }

abbrev service_beq : Option ℕ → Option ℕ → Bool
service_beq none none = true
service_beq (some a) (some b) = a == b
service_beq none (some b) = false
service_beq (some a) none = false

pub service_beq_iff : (x y : Option ℕ) → (service_beq x y ≡ true) ↔ (x ≡ y)
service_beq_iff none none = (λ h. refl, λ h. refl)
service_beq_iff (some a) (some b) =
    (λ h. ap some ((nat_eq.beq_iff a b).0 h), λ h. ap (service_beq (some a)) (sym h) ∙ beq_refl a)
service_beq_iff none (some b) = (λ h. absurd cc, λ h. absurd cc)
service_beq_iff (some a) none = (λ h. absurd cc, λ h. absurd cc)

instance abbrev pub service_eq : Eq (Option ℕ)
service_eq = record { beq = service_beq; beq_iff = service_beq_iff }

-- A service, where there is one, and a type.
abbrev pub Key : Type 0
Key = Option ℕ × TypeId

pub key_beq_iff : (x y : Key) → ((service_beq x.0 y.0 && type_beq x.1 y.1) ≡ true) ↔ (x ≡ y)
key_beq_iff (a, s) (b, t) = ground (arith, service_beq_iff a b, type_beq_iff s t)

instance abbrev pub key_eq : Eq Key
key_eq = record { beq = λ x y. service_beq x.0 y.0 && type_beq x.1 y.1; beq_iff = key_beq_iff }

pub record RegistryState : Type 0 where
  pub providers : List (Option ℕ × ℕ)
  pub serializers : List (Key × Serializer)

unfoldable pub new : RegistryState
new = record { providers = []; serializers = [] }

abbrev has_service : Option ℕ → List (Key × Serializer) → Bool
has_service service [] = false
has_service service ((k, x) ∷ m) = service_beq k.0 service || has_service service m

-- `SerdeRegistry::set_provider`: the provider is set before the first serde of its service.
unfoldable pub set_provider : Option ℕ → ℕ → RegistryState → Result (Unit {0}) × RegistryState
set_provider service provider s =
    if is_some (lookup service s.providers) || has_service service s.serializers
    then (err duplicate_resource, s)
    else (ok tt, record s { providers = insert service provider s.providers })

-- The serde of a serializer, where its type is the one that is asked for.
unfoldable pub typed : TypeId → Serializer → Result Serde
typed t x = if type_beq x.value_type t then ok x.serde else err invalid_configuration

unfoldable pub default_serializer : TypeId → Option Serializer
default_serializer (vec_of u8) = some (record { value_type = vec_of u8; serde = bytes_serde })
default_serializer (scalar s) = some (record { value_type = scalar s; serde = scalar_serde s })
default_serializer (vec_of s) = some (record { value_type = vec_of s; serde = array_serde s })
default_serializer (other_type n) = none

abbrev stub : TypeId → Serializer
stub t = record { value_type = t; serde = stub_serde }

abbrev or_default : TypeId → Option Serializer → Serializer
or_default t (some x) = x
or_default t none = elim (default_serializer t) [ none ↦ stub t | some x ↦ x ]

-- What `get` finds under its first lock: a serde, or the provider of the service.
pub data Look : Type 0 where
  found : Result Serde → Look
  missing : Option ℕ → Look

unfoldable pub look : Key → RegistryState → Look
look key s = elim (lookup key s.serializers) [
  | some x ↦ found (typed key.1 x)
  | none ↦ missing (lookup key.0 s.providers)
]

abbrev checked : TypeId → Serializer → Result Serializer
checked t x = elim (typed t x) [ err e ↦ err e | ok serde ↦ ok x ]

abbrev provided : TypeId → Result (Option Serializer) → Result Serializer
provided t (err e) = err e
provided t (ok o) = checked t (or_default t o)

-- Between the locks: the provider of the service, the serde of the type, or a stub.
unfoldable pub select :
    (ℕ → TypeId → Result (Option Serializer)) → TypeId → Option ℕ → Result Serializer
select provide t none = checked t (or_default t none)
select provide t (some p) = provided t (provide p t)

-- `entry(key).or_insert(selected)` under the second lock.
unfoldable pub store : Key → Serializer → RegistryState → Result Serde × RegistryState
store key selected s = elim (lookup key s.serializers) [
  | some x ↦ (typed key.1 x, s)
  | none ↦ (typed key.1 selected, record s { serializers = insert key selected s.serializers })
]

abbrev stored : Key → Result Serializer → RegistryState → Result Serde × RegistryState
stored key (err e) s = (err e, s)
stored key (ok x) s = store key x s

abbrev after_look :
    (ℕ → TypeId → Result (Option Serializer))
    → Key
    → Look
    → RegistryState
    → Result Serde × RegistryState
after_look provide key (found r) s = (r, s)
after_look provide key (missing p) s = stored key (select provide key.1 p) s

-- `SerdeRegistry::get`, with the registry under its first and under its second lock.
unfoldable pub get :
    (ℕ → TypeId → Result (Option Serializer))
    → Key
    → RegistryState
    → RegistryState
    → Result Serde × RegistryState
get provide key s later = after_look provide key (look key s) later

-- `SerdeRegistry::cache` of a serde for values of the type of the key. `none` is a panic.
unfoldable pub cache : Key → Serde → RegistryState → Option Serde × RegistryState
cache key serde s = elim (lookup key s.serializers) [
  | some x ↦ (if type_beq x.value_type key.1 then some x.serde else none, s)
  | none ↦ (
    some serde,
    record s {
      serializers = insert key (record { value_type = key.1; serde = serde }) s.serializers;
    },
  )
]

-- The operations that write the registry. Between the locks of a `get` come any others.
pub data Write : Type 0 where
  sets : Option ℕ → ℕ → Write
  gets : Key → RegistryState → Write
  caches : Key → Serde → Write

module _ (provide : ℕ → TypeId → Result (Option Serializer)) where
  unfoldable pub write : Write → RegistryState → RegistryState
  write (sets service provider) s = (set_provider service provider s).1
  write (gets key before) s = (get provide key before s).1
  write (caches key serde) s = (cache key serde s).1

  unfoldable pub writes : List Write → RegistryState → RegistryState
  writes [] s = s
  writes (x ∷ xs) s = writes xs (write x s)
