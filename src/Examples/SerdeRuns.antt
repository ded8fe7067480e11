-- ===== src/Examples/SerdeRuns.antt =====
-- Values that the serdes write and read back.
use rustservicelib.Base.{ℕ, List, [], ◌∷◌, nat_eq, ◌≡◌, refl, arith, ◌<◌, lookup, IsMap}
use rustservicelib.Base.Int.{pos, negsuc, ltb_ℤ}
use rustservicelib.Serde.Bytes.{to_be_bytes}
use rustservicelib.Serde.Order.{lex_lt}
use rustservicelib.Serde.Reader.{ok, usize_max, put_size}
use rustservicelib.Serde.Scalar.{uint8_serde}
use rustservicelib.Serde.Scalar.Laws.{unsigned-RoundTrips, signed_sortable, RoundTrips}
use rustservicelib.Serde.Container.{SerdeLimits, bytes_serde, array_serde, map_serde, put_items}
use rustservicelib.Serde.Container.Laws.{bytes-RoundTrips, array-RoundTrips}
use rustservicelib.Serde.Container.Tables.{map-RoundTrips}

signed_sortable_example : lex_lt (0x7F ∷ 0xFE ∷ []) (0x80 ∷ 3 ∷ []) ≡ ltb_ℤ (negsuc 1) (pos 3)
unfolding to_be_bytes
signed_sortable_example =
    signed_sortable 2 15 "i16" (negsuc 1) (pos 3) (0x7F ∷ 0xFE ∷ []) (0x80 ∷ 3 ∷ []) refl
      (omega arith) (omega arith) refl refl

abbrev limits : SerdeLimits
limits = record {
  max_string_bytes = 10;
  max_bytes = 10;
  max_container_elements = 10;
  max_total_bytes = 100;
}

abbrev two_bytes : List ℕ
two_bytes = 0 ∷ 0 ∷ 0 ∷ 0 ∷ 0 ∷ 0 ∷ 0 ∷ 2 ∷ 7 ∷ 9 ∷ []

-- The words of one byte.
abbrev IsByte : ℕ → Type 0
IsByte x = x < 256

uint8-RoundTrips : RoundTrips uint8_serde IsByte
uint8-RoundTrips x bs h e fits = unsigned-RoundTrips 1 "u8" x bs h e fits

abbrev one_item : List ℕ
one_item = 0 ∷ 0 ∷ 0 ∷ 0 ∷ 0 ∷ 0 ∷ 0 ∷ 1 ∷ 0 ∷ 0 ∷ 0 ∷ 0 ∷ 0 ∷ 0 ∷ 0 ∷ 1 ∷ 7 ∷ []

array-RoundTrips_example : (array_serde uint8_serde limits).deserialize one_item ≡ ok (7 ∷ [])
unfolding to_be_bytes put_size put_items
array-RoundTrips_example =
    array-RoundTrips uint8_serde IsByte uint8-RoundTrips limits (7 ∷ []) one_item (omega arith)
      (omega arith, tt) refl (omega arith) (omega arith)

abbrev a_pair : List ℕ
a_pair = 0 ∷ 0 ∷ 0 ∷ 0 ∷ 0 ∷ 0 ∷ 0 ∷ 1 ∷ 7 ∷ 0 ∷ 0 ∷ 0 ∷ 0 ∷ 0 ∷ 0 ∷ 0 ∷ 1 ∷ 9 ∷ []

abbrev a_map : List ℕ
a_map =
    0 ∷ 0 ∷ 0 ∷ 0 ∷ 0 ∷ 0 ∷ 0 ∷ 10 ∷ 0 ∷ 0 ∷ 0 ∷ 0 ∷ 0 ∷ 0 ∷ 0 ∷ 2 ∷ 7 ∷ 9 ∷ 0 ∷ 0 ∷ 0 ∷ 0 ∷ 0 ∷ 0
    ∷ 0 ∷ 10 ∷ 0 ∷ 0 ∷ 0 ∷ 0 ∷ 0 ∷ 0 ∷ 0 ∷ 2 ∷ 1 ∷ 2 ∷ []

-- The serde of byte sequences, where every number is taken for a byte.
abbrev IsAny : List ℕ → Type 0
IsAny x = Unit

abbrev wide_limits : SerdeLimits
wide_limits = record {
  max_string_bytes = usize_max;
  max_bytes = usize_max;
  max_container_elements = usize_max;
  max_total_bytes = usize_max;
}

bytes_array-RoundTrips : RoundTrips (bytes_serde wide_limits) IsAny
bytes_array-RoundTrips x bs h e fits = bytes-RoundTrips wide_limits x bs e fits fits

abbrev two_pairs : List (ℕ × ℕ)
two_pairs = (7, 1) ∷ (9, 2) ∷ []

map-RoundTrips_example :
    (m : List (ℕ × ℕ)) × ((map_serde
          (bytes_serde wide_limits)
          (bytes_serde wide_limits)).deserialize
        a_map
      ≡ ok m)
    × IsMap m
    × ((k : ℕ) → lookup k m ≡ lookup k two_pairs)
unfolding to_be_bytes put_size lookup
map-RoundTrips_example =
    map-RoundTrips (bytes_serde wide_limits) IsAny (bytes_serde wide_limits) IsAny
      bytes_array-RoundTrips bytes_array-RoundTrips two_pairs a_map (refl, (refl, tt)) tt tt refl
      (omega arith)
