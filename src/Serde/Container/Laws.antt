-- ===== src/Serde/Container/Laws.antt =====
-- Round trips of the serdes of strings, byte sequences, arrays, pairs and maps.
use mathlib.Core.List.{append-nil}
use Prim.Native.String.{String}
use rustservicelib.Base.{
  ℕ, ◌≤◌, List, [], ◌++◌, Bool, true, false, ltb, nat_eq, if◌then◌else◌, length, arith, ◌≡◌, refl,
  sym, ◌∙◌, ap, All, length-append, ltb-false, subst,
}
use rustservicelib.Serde.Bytes.{to_be_bytes}
use rustservicelib.Serde.Reader.{
  Message, Result, ok, err, fail, ◌>>=◌, usize_max, size_bytes, Reader, read_size, put_size, at,
  read_size-behind, bind_ok, string_exceeds_limit, bytes_exceed_limit, array_exceeds_limit,
}
use rustservicelib.Serde.Reader
use rustservicelib.Serde.Scalar.{Serde}
use rustservicelib.Serde.Scalar.Laws.{RoundTrips, ok_injective}
use rustservicelib.Serde.Container.{
  SerdeLimits, read_frame, put_frame, bytes_serde, string_serde, put_items, read_items, array_serde,
  key_value_serde,
}
use rustservicelib.Serde.Container.Frames.{
  frame, put_frame_lem, length-frame, read_frame-behind, items_written,
}

pub new-at : (bs : List ℕ) (n : ℕ) → length bs ≤ n → Reader.new bs n ≡ ok (at [] bs)
unfolding Reader.new
new-at bs n h = rw (ltb-false n (length bs) h) refl

-- A test on a limit that a successful serialization has passed.
pub passed {ℓ} :
    {A : Type ℓ} (b : Bool) (o : Message) (m : Result A) {y : A}
    → (if b then fail o 0 else m) ≡ ok y
    → (b ≡ false) × (m ≡ ok y)
passed true o m h = cc
passed false o m h = (refl, h)

pub put_size_empty : (n : ℕ) → put_size [] n ≡ to_be_bytes size_bytes n
unfolding put_size
put_size_empty n = refl

-- A frame that is all of the input.
frame_alone :
    (xs : List ℕ) (maximum : ℕ) (length_name name : String)
    → length (frame xs) ≤ usize_max
    → length xs ≤ maximum
    → (offset : ℕ) × (r : Reader) × (read_frame maximum length_name name (at [] (frame xs))
        ≡ ok (xs, offset, r))
frame_alone xs maximum length_name name h fits =
    let whole : frame xs ++ [] ≡ frame xs = append-nil (frame xs) in
    let (offset, got) =
      read_frame-behind [] xs [] maximum length_name name
        (subst (λ t. length t ≤ usize_max) (sym whole) h) fits in
    (offset, record { input = frame xs; offset = length (frame xs) }, rw whole at got)

pub not_ltb : (a b : ℕ) → ltb a b ≡ false → b ≤ a
not_ltb a b h = ground arith

-- Bytes are read back from a serialization that a `usize` counts and that the limit on the total
-- admits.
pub bytes-RoundTrips :
    (limits : SerdeLimits) (x bs : List ℕ)
    → (bytes_serde limits).serialize x ≡ ok bs
    → length bs ≤ usize_max
    → length bs ≤ limits.max_total_bytes
    → (bytes_serde limits).deserialize bs ≡ ok x
bytes-RoundTrips limits x bs h fits total =
    let (small, written) = passed (ltb limits.max_bytes (length x)) _ (ok (put_frame [] x)) h in
    let same : frame x ≡ bs = sym (put_frame_lem [] x) ∙ ok_injective written in
    let fits' : length (frame x) ≤ usize_max = omega (arith, fits, ap length same) in
    let (offset, r, got) =
      frame_alone x limits.max_bytes "bytes length" "bytes" fits'
        (not_ltb limits.max_bytes (length x) small) in
    rw (← same) (
      rw (new-at (frame x) limits.max_total_bytes (omega (arith, total, ap length same)))
        (rw got refl))

-- A string, whose bytes pass the test for UTF-8, is read back from a serialization that a `usize`
-- counts and that the limit on the total admits.
pub string-RoundTrips :
    (is_utf8 : List ℕ → Bool) (limits : SerdeLimits) (x bs : List ℕ)
    → is_utf8 x ≡ true
    → (string_serde is_utf8 limits).serialize x ≡ ok bs
    → length bs ≤ usize_max
    → length bs ≤ limits.max_total_bytes
    → (string_serde is_utf8 limits).deserialize bs ≡ ok x
string-RoundTrips is_utf8 limits x bs p h fits total =
    let (small, written) =
      passed (ltb limits.max_string_bytes (length x)) _ (ok (put_frame [] x)) h in
    let same : frame x ≡ bs = sym (put_frame_lem [] x) ∙ ok_injective written in
    let fits' : length (frame x) ≤ usize_max = omega (arith, fits, ap length same) in
    let (offset, r, got) =
      frame_alone x limits.max_string_bytes "string length" "string" fits'
        (not_ltb limits.max_string_bytes (length x) small) in
    rw (← same) (
      rw (new-at (frame x) limits.max_total_bytes (omega (arith, total, ap length same)))
        (rw got (rw p refl)))

module _ {ℓ κ} {T : Type ℓ} (s : Serde T) (P : T → Type κ) (trip : RoundTrips s P) where
  -- An array is read back from a serialization that a `usize` counts and that the limit on the total
  -- admits, where the element serde reads back every element; the limit on the elements is a `usize`.
  pub array-RoundTrips :
      (limits : SerdeLimits) (xs : List T) (bs : List ℕ)
      → limits.max_container_elements ≤ usize_max
      → All P xs
      → (array_serde s limits).serialize xs ≡ ok bs
      → length bs ≤ usize_max
      → length bs ≤ limits.max_total_bytes
      → (array_serde s limits).deserialize bs ≡ ok xs
  array-RoundTrips limits xs bs elements p h fits total =
      let n : ℕ = length xs in
      let size : List ℕ = to_be_bytes size_bytes n in
      let (small, written) =
        passed (ltb limits.max_container_elements n) _ (put_items s xs (put_size [] n)) h in
      let few : n ≤ limits.max_container_elements = not_ltb limits.max_container_elements n small in
      let (enc, same, back) = items_written s P trip xs (put_size [] n) bs p written in
      let same' : bs ≡ size ++ enc = same ∙ ap (λ t. t ++ enc) (put_size_empty n) in
      let fits' : length (size ++ enc) ≤ usize_max = omega (arith, fits, ap length same') in
      let counted =
        read_size-behind [] enc n limits.max_container_elements "array count" fits'
          (omega (arith, few, elements)) few in
      let whole : enc ++ [] ≡ enc = append-nil enc in
      let items : read_items s n (at size enc) ≡ ok (xs, at (size ++ enc) []) =
        rw whole at
          (back size [] (subst (λ t. length (size ++ t) ≤ usize_max) (sym whole) fits')) in
      rw same' (
        rw (new-at (size ++ enc) limits.max_total_bytes (omega (arith, total, ap length same')))
          (rw counted (rw items refl)))

-- Two frames that are all of the input, as pairs and maps are written.
pub two_frames :
    (xs ys : List ℕ) (length_name name length_name' name' : String)
    → length (frame xs ++ frame ys) ≤ usize_max
    → (o o' : ℕ) × (r r' : Reader) × (read_frame
          (length (frame xs ++ frame ys))
          length_name
          name
          (at [] (frame xs ++ frame ys))
        ≡ ok (xs, o, r))
      × (r.input ≡ frame xs ++ frame ys)
      × (read_frame (length r.input) length_name' name' r ≡ ok (ys, o', r'))
two_frames xs ys length_name name length_name' name' h =
    let all : List ℕ = frame xs ++ frame ys in
    let total = length-append (frame xs) (frame ys) in
    let (o, got) =
      read_frame-behind [] xs (frame ys) (length all) length_name name h
        (omega (arith, total, length-frame xs)) in
    let whole : frame ys ++ [] ≡ frame ys = append-nil (frame ys) in
    let (o', got') =
      read_frame-behind (frame xs) ys [] (length all) length_name' name'
        (subst (λ t. length (frame xs ++ t) ≤ usize_max) (sym whole) h)
        (omega (arith, total, length-frame ys)) in
    (o, o', at (frame xs) (frame ys), at all [], got, refl, rw whole at got')

module _ {ℓ κ λ1 λ2} {K : Type ℓ} {V : Type κ} where
  -- A pair is read back from a serialization that a `usize` counts, where the serdes of its key and
  -- its value read these back.
  pub key_value-RoundTrips :
      (ks : Serde K) (P : K → Type λ1) (vs : Serde V) (Q : V → Type λ2)
      → RoundTrips ks P
      → RoundTrips vs Q
      → (x : K × V) (bs : List ℕ) → P x.0
      → Q x.1
      → (key_value_serde ks vs).serialize x ≡ ok bs
      → length bs ≤ usize_max
      → (key_value_serde ks vs).deserialize bs ≡ ok x
  key_value-RoundTrips ks P vs Q trip trip' x bs p q h fits =
      let (key, ser, more) = bind_ok (ks.serialize x.0) _ h in
      let (value, ser', wrote) = bind_ok (vs.serialize x.1) _ more in
      let same : bs ≡ frame key ++ frame value =
        sym (ok_injective wrote)
        ∙ put_frame_lem (put_frame [] key) value
        ∙ ap (λ t. t ++ frame value) (put_frame_lem [] key) in
      let fits' : length (frame key ++ frame value) ≤ usize_max =
        omega (arith, fits, ap length same) in
      let total = length-append (frame key) (frame value) in
      let small : length key ≤ usize_max = omega (arith, fits', total, length-frame key) in
      let small' : length value ≤ usize_max = omega (arith, fits', total, length-frame value) in
      let (o, o', r, r', got, input, got') =
        two_frames key value "key length" "key" "value length" "value" fits' in
      rw same (
        rw (new-at (frame key ++ frame value) usize_max fits') (
          rw got
            (rw (trip x.0 key p ser small) (rw got' (rw (trip' x.1 value q ser' small') refl)))))
