-- ===== src/Serde/Container.antt =====
-- The serdes of strings, byte sequences, arrays, pairs and maps. A string is its bytes; whether
-- bytes are UTF-8 is a parameter. A hash map is its pairs in the order of an iteration.
pub mod Frames
pub mod Laws
pub mod Tables
pub mod Strings
pub mod Stream
use Prim.Native.String.{String}
use rustservicelib.Base.{
  ℕ, zero, suc, ◌+◌, ◌-◌, ◌*◌, List, [], ◌∷◌, ◌++◌, Bool, true, false, ltb, ◌==◌, nat_eq, Eq,
  if◌then◌else◌, not, length, Option, none, some, insert_all, map,
}
use rustservicelib.Serde.Reader.{
  Message, Result, ok, fail, ◌>>=◌, usize_max, size_bytes, Reader, read, read_size, put_size,
  string_exceeds_limit, bytes_exceed_limit, array_exceeds_limit, invalid_element_size,
  array_size_overflow, array_truncated, invalid_utf8, key_required, counts_differ,
}
use rustservicelib.Serde.Reader
use rustservicelib.Serde.Scalar.{Serde}

pub record SerdeLimits : Type 0 where
  pub max_string_bytes : ℕ
  pub max_bytes : ℕ
  pub max_container_elements : ℕ
  pub max_total_bytes : ℕ

-- A length frame and the bytes that it announces, with the offset between the two.
abbrev pub read_frame : ℕ → String → String → Reader → Result (List ℕ × ℕ × Reader)
read_frame maximum length_name name r =
    read_size maximum length_name r >>= λ s. (read s.0 name s.1 >>= λ t. ok (t.0, s.1.offset, t.1))

abbrev pub put_frame : List ℕ → List ℕ → List ℕ
put_frame output bs = put_size output (length bs) ++ bs

-- `BytesSerde`.
abbrev pub bytes_serde : SerdeLimits → Serde (List ℕ)
bytes_serde limits = record {
  serialize = λ x.
      if ltb limits.max_bytes (length x) then fail bytes_exceed_limit 0 else ok (put_frame [] x);
  deserialize = λ bs. Reader.new bs limits.max_total_bytes >>= λ r.
      (read_frame limits.max_bytes "bytes length" "bytes" r >>= λ t. ok t.0);
}

abbrev pub from_utf8 : (List ℕ → Bool) → List ℕ → ℕ → Result (List ℕ)
from_utf8 is_utf8 bs offset = if is_utf8 bs then ok bs else fail invalid_utf8 offset

-- `StringSerde`.
abbrev pub string_serde : (List ℕ → Bool) → SerdeLimits → Serde (List ℕ)
string_serde is_utf8 limits = record {
  serialize = λ x.
      if ltb limits.max_string_bytes (length x)
      then fail string_exceeds_limit 0
      else ok (put_frame [] x);
  deserialize = λ bs. Reader.new bs limits.max_total_bytes >>= λ r.
      (read_frame limits.max_string_bytes "string length" "string" r >>= λ t.
      from_utf8 is_utf8 t.0 t.1);
}

module _ {ℓ} {T : Type ℓ} where
  -- The loops of `FixedSizeArraySerde`.
  unfoldable pub put_fixed : Serde T → ℕ → List T → List ℕ → Result (List ℕ)
  put_fixed s size [] output = ok output
  put_fixed s size (x ∷ xs) output = s.serialize x >>= λ encoded.
      if length encoded == size
      then put_fixed s size xs (output ++ encoded)
      else fail invalid_element_size (length output)

  unfoldable pub read_fixed : Serde T → ℕ → ℕ → Reader → Result (List T × Reader)
  read_fixed s size zero r = ok ([], r)
  read_fixed s size (suc count) r = read size "array element" r >>= λ t.
      (s.deserialize t.0 >>= λ x. (read_fixed s size count t.1 >>= λ rest. ok (x ∷ rest.0, rest.1)))

  -- `FixedSizeArraySerde`.
  abbrev pub fixed_array_serde : Serde T → ℕ → SerdeLimits → Serde (List T)
  fixed_array_serde s size limits = record {
    serialize = λ xs.
        if ltb limits.max_container_elements (length xs)
        then fail array_exceeds_limit 0
        else put_fixed s size xs (put_size [] (length xs));
    deserialize = λ bs. Reader.new bs limits.max_total_bytes >>= λ r.
        (read_size limits.max_container_elements "array count" r >>= λ t.
        (if ltb usize_max (t.0 * size)
          then fail array_size_overflow t.1.offset
          else if ltb (length t.1.input - t.1.offset) (t.0 * size)
          then fail array_truncated t.1.offset
          else (read_fixed s size t.0 t.1 >>= λ rest. ok rest.0)));
  }

  -- The loops of `ArraySerde`.
  unfoldable pub put_items : Serde T → List T → List ℕ → Result (List ℕ)
  put_items s [] output = ok output
  put_items s (x ∷ xs) output =
      s.serialize x >>= λ encoded. put_items s xs (put_frame output encoded)

  unfoldable pub read_items : Serde T → ℕ → Reader → Result (List T × Reader)
  read_items s zero r = ok ([], r)
  read_items s (suc count) r =
      read_frame (length r.input) "array element length" "array element" r >>= λ t.
      (s.deserialize t.0 >>= λ x. (read_items s count t.2 >>= λ rest. ok (x ∷ rest.0, rest.1)))

  -- `ArraySerde`.
  abbrev pub array_serde : Serde T → SerdeLimits → Serde (List T)
  array_serde s limits = record {
    serialize = λ xs.
        if ltb limits.max_container_elements (length xs)
        then fail array_exceeds_limit 0
        else put_items s xs (put_size [] (length xs));
    deserialize = λ bs. Reader.new bs limits.max_total_bytes >>= λ r.
        (read_size limits.max_container_elements "array count" r >>= λ t.
        (read_items s t.0 t.1 >>= λ rest. ok rest.0));
  }

module _ {ℓ κ} {K : Type ℓ} {V : Type κ} where
  -- `StreamKeyValueSerde`.
  abbrev pub key_value_serde : Serde K → Serde V → Serde (K × V)
  key_value_serde ks vs = record {
    serialize = λ x. ks.serialize x.0 >>= λ key.
        (vs.serialize x.1 >>= λ value. ok (put_frame (put_frame [] key) value));
    deserialize = λ bs. Reader.new bs usize_max >>= λ r.
        (read_frame (length r.input) "key length" "key" r >>= λ t.
        (ks.deserialize t.0 >>= λ key.
        (read_frame (length t.2.input) "value length" "value" t.2 >>= λ u.
        (vs.deserialize u.0 >>= λ value. ok (key, value)))));
  }

  -- Its `deserialize_key_value`, for a transport that keeps the key apart.
  abbrev pub deserialize_key_value : Serde K → Serde V → Option (List ℕ) → List ℕ → Result (K × V)
  deserialize_key_value ks vs none value = fail key_required 0
  deserialize_key_value ks vs (some key) value =
      ks.deserialize key >>= λ k. (vs.deserialize value >>= λ v. ok (k, v))

  unfoldable pub zip : List K → List V → List (K × V)
  zip [] vs = []
  zip (k ∷ ks) [] = []
  zip (k ∷ ks) (v ∷ vs) = (k, v) ∷ zip ks vs

  -- `MapSerde`.
  abbrev pub map_serde : ⦃e : Eq K⦄ → Serde (List K) → Serde (List V) → Serde (List (K × V))
  map_serde ks vs = record {
    serialize = λ m. ks.serialize (map (λ p. p.0) m) >>= λ keys.
        (vs.serialize (map (λ p. p.1) m) >>= λ values. ok (put_frame (put_frame [] keys) values));
    deserialize = λ bs. Reader.new bs usize_max >>= λ r.
        (read_frame (length r.input) "map keys length" "map keys" r >>= λ t.
        (ks.deserialize t.0 >>= λ keys.
        (read_frame (length t.2.input) "map values length" "map values" t.2 >>= λ u.
        (vs.deserialize u.0 >>= λ values.
        (if length keys == length values
          then ok (insert_all (zip keys values) [])
          else fail counts_differ u.2.offset)))));
  }
