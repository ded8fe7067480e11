-- ===== src/Serde/Scalar.antt =====
-- The serdes of fixed-width values. An integer of k + 1 bits is a ℤ from -2^k to 2^k - 1; a float is
-- its bit pattern, which is all that its serde sees.
pub mod Laws
use Prim.Native.Nat.{bit_xor}
use Prim.Native.String.{String}
use rustservicelib.Base.{
  ℕ, zero, suc, ◌+◌, ◌-◌, ◌^◌, ◌<◌, ◌≤◌, List, [], ◌∷◌, Bool, true, false, ltb, leb, ◌==◌, nat_eq,
  if◌then◌else◌, not, ◌||◌, ◌&&◌,
}
use rustservicelib.Base.Int.{ℤ, pos, negsuc}
use rustservicelib.Serde.Bytes.{to_be_bytes, from_be_bytes}
use rustservicelib.Serde.Reader.{
  Message, invalid_scalar, Result, ok, fail, ◌>>=◌, usize_max, read, stub_serialize,
  stub_deserialize,
}
use rustservicelib.Serde.Reader

-- `trait Serde`.
pub record Serde {ℓ} (T : Type ℓ) : Type ℓ where
  pub serialize : T → Result (List ℕ)
  pub deserialize : List ℕ → Result T

-- The macro `unsigned_serde`.
unfoldable pub read_word : ℕ → String → List ℕ → Result ℕ
read_word w name bs =
    Reader.new bs usize_max >>= λ r. (read w name r >>= λ t. ok (from_be_bytes 0 t.0))

abbrev pub unsigned_serde : ℕ → String → Serde ℕ
unsigned_serde w name = record {
  serialize = λ x. ok (to_be_bytes w x);
  deserialize = read_word w name;
}

-- `value as u16` and `value as i16`, at k + 1 bits.
abbrev pub as_unsigned : ℕ → ℤ → ℕ
as_unsigned k (pos n) = n
as_unsigned k (negsuc n) = 2 ^ k + 2 ^ k - suc n

abbrev pub as_signed : ℕ → ℕ → ℤ
as_signed k u = if ltb u (2 ^ k) then pos u else negsuc (2 ^ k + 2 ^ k - suc u)

-- The macro `signed_serde`, at w bytes of k + 1 bits in all.
abbrev pub signed_serde : ℕ → ℕ → ℕ → String → Serde ℤ
signed_serde w k mask name = record {
  serialize = λ x. ok (to_be_bytes w (bit_xor (as_unsigned k x) mask));
  deserialize = λ bs. read_word w name bs >>= λ encoded. ok (as_signed k (bit_xor encoded mask));
}

abbrev pub int8_serde : Serde ℤ
int8_serde = signed_serde 1 7 0x00 "i8"

abbrev pub uint8_serde : Serde ℕ
uint8_serde = unsigned_serde 1 "u8"

abbrev pub int16_serde : Serde ℤ
int16_serde = signed_serde 2 15 0x8000 "i16"

abbrev pub uint16_serde : Serde ℕ
uint16_serde = unsigned_serde 2 "u16"

abbrev pub int32_serde : Serde ℤ
int32_serde = signed_serde 4 31 0x80000000 "i32"

abbrev pub uint32_serde : Serde ℕ
uint32_serde = unsigned_serde 4 "u32"

abbrev pub int64_serde : Serde ℤ
int64_serde = signed_serde 8 63 0x8000000000000000 "i64"

abbrev pub uint64_serde : Serde ℕ
uint64_serde = unsigned_serde 8 "u64"

abbrev first_is_set : List ℕ → Bool
first_is_set [] = false
first_is_set (b ∷ bs) = not (b == 0)

abbrev pub bool_serde : Serde Bool
bool_serde = record {
  serialize = λ x. ok ((if x then 1 else 0) ∷ []);
  deserialize =
      λ bs. Reader.new bs usize_max >>= λ r. (read 1 "bool" r >>= λ t. ok (first_is_set t.0));
}

-- `char::from_u32`: the Unicode scalar values are the code points outside the surrogates.
abbrev pub is_scalar : ℕ → Bool
is_scalar c = ltb c 0xD800 || (leb 0xE000 c && leb c 0x10FFFF)

abbrev pub rune_serde : Serde ℕ
rune_serde = record {
  serialize = λ c. ok (to_be_bytes 4 c);
  deserialize = λ bs.
      uint32_serde.deserialize bs >>= λ c. if is_scalar c then ok c else fail invalid_scalar 0;
}

abbrev pub float32_serde : Serde ℕ
float32_serde = record {
  serialize = λ bits. ok (to_be_bytes 4 bits);
  deserialize = λ bs. uint32_serde.deserialize bs >>= λ bits. ok bits;
}

abbrev pub float64_serde : Serde ℕ
float64_serde = record {
  serialize = λ bits. ok (to_be_bytes 8 bits);
  deserialize = λ bs. uint64_serde.deserialize bs >>= λ bits. ok bits;
}

abbrev pub stub_serde {ℓ} : {T : Type ℓ} → Serde T
stub_serde = record {
  serialize = λ x. fail stub_serialize 0;
  deserialize = λ bs. fail stub_deserialize 0;
}
