-- ===== src/Serde/Container/Stream.antt =====
-- `StreamSerde`: the serde of a stream, which can keep a key apart from its value.
use rustservicelib.Base.{ℕ, ◌≤◌, List, Option, none, some, Bool, true, false, length, ◌≡◌, refl}
use rustservicelib.Serde.Reader.{Result, ok, ◌>>=◌, usize_max, bind_ok}
use rustservicelib.Serde.Scalar.{Serde}
use rustservicelib.Serde.Scalar.Laws.{RoundTrips}
use rustservicelib.Serde.Container.{SerdeLimits, key_value_serde, deserialize_key_value}

-- `SerdeLimits::default`.
abbrev pub default_limits : SerdeLimits
default_limits = record {
  max_string_bytes = usize_max;
  max_bytes = usize_max;
  max_container_elements = usize_max;
  max_total_bytes = usize_max;
}

pub record StreamSerde {ℓ} (T : Type ℓ) : Type ℓ where
  pub serde : Serde T
  pub is_key_value : Bool
  pub serialize_key : T → Result (Option (List ℕ))
  pub serialize_value : T → Result (List ℕ)
  pub from_key_value : Option (List ℕ) → List ℕ → Result T

-- The defaults of the trait, which `ValueStreamSerde` has.
abbrev pub make_stream_serde {ℓ} : {T : Type ℓ} → Serde T → StreamSerde T
make_stream_serde s = record {
  serde = s;
  is_key_value = false;
  serialize_key = λ x. ok none;
  serialize_value = λ x. s.serialize x;
  from_key_value = λ key value. s.deserialize value;
}

abbrev pub make_stream_key_value_serde {ℓ κ} :
    {K : Type ℓ} {V : Type κ} → Serde K → Serde V → StreamSerde (K × V)
make_stream_key_value_serde ks vs = record {
  serde = key_value_serde ks vs;
  is_key_value = true;
  serialize_key = λ x. ks.serialize x.0 >>= λ key. ok (some key);
  serialize_value = λ x. vs.serialize x.1;
  from_key_value = λ key value. deserialize_key_value ks vs key value;
}

-- A pair is read back from its key and its value as they are written apart, where a `usize` counts
-- these and the serdes of the key and of the value read them back.
pub stream_key_value-RoundTrips {ℓ κ μ ν} :
    {K : Type ℓ} {V : Type κ} (ks : Serde K) (P : K → Type μ) (vs : Serde V) (Q : V → Type ν)
    → RoundTrips ks P
    → RoundTrips vs Q
    → (x : K × V) (key value : List ℕ) → P x.0
    → Q x.1
    → (make_stream_key_value_serde ks vs).serialize_key x ≡ ok (some key)
    → (make_stream_key_value_serde ks vs).serialize_value x ≡ ok value
    → length key ≤ usize_max
    → length value ≤ usize_max
    → (make_stream_key_value_serde ks vs).from_key_value (some key) value ≡ ok x
stream_key_value-RoundTrips ks P vs Q trip trip' x key value p q h h' small small' =
    let (bs, ser, last) = bind_ok (ks.serialize x.0) _ h in
    let same : bs ≡ key = key_of last in
    rw (trip x.0 key p (rw same at ser) small) (rw (trip' x.1 value q h' small') refl)
  where
    key_of : {bs : List ℕ} → ok (some bs) ≡ ok (some key) → bs ≡ key
    key_of e = cc
