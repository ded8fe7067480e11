-- ===== src/Serde/Container/Strings.antt =====
-- `StringArraySerde`: the strings of an array follow one another, each with its own length.
use mathlib.Core.List.{append_assoc, append-nil}
use rustservicelib.Base.{
  ℕ, zero, suc, ◌≤◌, List, [], ◌∷◌, ◌++◌, Bool, true, ltb, if◌then◌else◌, length, arith, ◌≡◌, refl,
  sym, ◌∙◌, ap, All, subst,
}
use rustservicelib.Serde.Bytes.{to_be_bytes}
use rustservicelib.Serde.Reader.{
  Result, ok, err, fail, ◌>>=◌, usize_max, size_bytes, Reader, read_size, put_size, at,
  read_size-behind, bind_ok, array_exceeds_limit,
}
use rustservicelib.Serde.Reader
use rustservicelib.Serde.Scalar.{Serde}
use rustservicelib.Serde.Scalar.Laws.{ok_injective}
use rustservicelib.Serde.Container.{SerdeLimits, read_frame, put_frame, string_serde, from_utf8}
use rustservicelib.Serde.Container.Frames.{frame, put_frame_lem, read_frame-behind}
use rustservicelib.Serde.Container.Laws.{new-at, passed, not_ltb, put_size_empty}

-- `serialize_to`, for each string.
unfoldable pub put_strings : Serde (List ℕ) → List (List ℕ) → List ℕ → Result (List ℕ)
put_strings s [] output = ok output
put_strings s (x ∷ xs) output = s.serialize x >>= λ encoded. put_strings s xs (output ++ encoded)

unfoldable pub read_strings : (List ℕ → Bool) → ℕ → ℕ → Reader → Result (List (List ℕ) × Reader)
read_strings is_utf8 maximum zero r = ok ([], r)
read_strings is_utf8 maximum (suc count) r = read_frame maximum "string length" "string" r >>= λ t.
    (from_utf8 is_utf8 t.0 t.1 >>= λ x.
    (read_strings is_utf8 maximum count t.2 >>= λ rest. ok (x ∷ rest.0, rest.1)))

abbrev pub string_array_serde : (List ℕ → Bool) → SerdeLimits → Serde (List (List ℕ))
string_array_serde is_utf8 limits = record {
  serialize = λ xs.
      if ltb limits.max_container_elements (length xs)
      then fail array_exceeds_limit 0
      else put_strings (string_serde is_utf8 limits) xs (put_size [] (length xs));
  deserialize = λ bs. Reader.new bs limits.max_total_bytes >>= λ r.
      (read_size limits.max_container_elements "array count" r >>= λ t.
      (read_strings is_utf8 limits.max_string_bytes t.0 t.1 >>= λ rest. ok rest.0));
}

module _ (is_utf8 : List ℕ → Bool) (limits : SerdeLimits) where
  abbrev maximum : ℕ
  maximum = limits.max_string_bytes

  read_strings_step :
      (x : List ℕ) (xs : List (List ℕ)) (enc pre post : List ℕ)
      → is_utf8 x ≡ true
      → length x ≤ maximum
      → length (pre ++ (frame x ++ (enc ++ post))) ≤ usize_max
      → read_strings is_utf8 maximum (length xs) (at (pre ++ frame x) (enc ++ post))
        ≡ ok (xs, at ((pre ++ frame x) ++ enc) post)
      → read_strings is_utf8 maximum (suc (length xs)) (at pre (frame x ++ (enc ++ post)))
        ≡ ok (x ∷ xs, at ((pre ++ frame x) ++ enc) post)
  unfolding read_strings
  read_strings_step x xs enc pre post u small fits rest =
      let (offset, got) =
        read_frame-behind pre x (enc ++ post) maximum "string length" "string" fits small in
      rw got (rw u (rw rest refl))

  strings_written :
      (xs : List (List ℕ)) (output bs : List ℕ)
      → All (λ x. is_utf8 x ≡ true) xs
      → put_strings (string_serde is_utf8 limits) xs output ≡ ok bs
      → (enc : List ℕ) × (bs ≡ output ++ enc)
        × ((pre post : List ℕ)
            → length (pre ++ (enc ++ post)) ≤ usize_max
            → read_strings is_utf8 maximum (length xs) (at pre (enc ++ post))
              ≡ ok (xs, at (pre ++ enc) post))
  unfolding put_strings read_strings
  strings_written [] output bs a h = (
    [],
    sym (ok_injective h) ∙ sym (append-nil output),
    λ pre post fits. rw (append-nil pre) refl,
  )
  strings_written (x ∷ xs) output bs a h =
      let (e, ser, more) = bind_ok ((string_serde is_utf8 limits).serialize x) _ h in
      let (small, written) = passed (ltb maximum (length x)) _ (ok (put_frame [] x)) ser in
      let same : e ≡ frame x = sym (ok_injective written) ∙ put_frame_lem [] x in
      let (enc, wrote, back) = strings_written xs (output ++ e) bs a.1 more in
      (
        frame x ++ enc,
        wrote ∙ ap (λ t. (output ++ t) ++ enc) same ∙ append_assoc output (frame x) enc,
        λ pre post fits.
            let assoc : (frame x ++ enc) ++ post ≡ frame x ++ (enc ++ post) =
              append_assoc (frame x) enc post in
            let fits' : length (pre ++ (frame x ++ (enc ++ post))) ≤ usize_max =
              subst (λ t. length (pre ++ t) ≤ usize_max) assoc fits in
            let behind : length ((pre ++ frame x) ++ (enc ++ post)) ≤ usize_max =
              subst (λ t. length t ≤ usize_max) (sym (append_assoc pre (frame x) (enc ++ post)))
                fits' in
            rw (assoc, ← append_assoc pre (frame x) enc)
              (read_strings_step x xs enc pre post a.0 (not_ltb maximum (length x) small) fits'
                (back (pre ++ frame x) post behind)),
      )

  -- An array of strings is read back from a serialization that a `usize` counts and that the limit on
  -- the total admits, where the bytes of each string pass the test for UTF-8; the limit on the elements
  -- is a `usize`.
  pub string_array-RoundTrips :
      (xs : List (List ℕ)) (bs : List ℕ)
      → limits.max_container_elements ≤ usize_max
      → All (λ x. is_utf8 x ≡ true) xs
      → (string_array_serde is_utf8 limits).serialize xs ≡ ok bs
      → length bs ≤ usize_max
      → length bs ≤ limits.max_total_bytes
      → (string_array_serde is_utf8 limits).deserialize bs ≡ ok xs
  string_array-RoundTrips xs bs elements p h fits total =
      let n : ℕ = length xs in
      let size : List ℕ = to_be_bytes size_bytes n in
      let (small, written) =
        passed (ltb limits.max_container_elements n) _
          (put_strings (string_serde is_utf8 limits) xs (put_size [] n)) h in
      let few : n ≤ limits.max_container_elements = not_ltb limits.max_container_elements n small in
      let (enc, same, back) = strings_written xs (put_size [] n) bs p written in
      let same' : bs ≡ size ++ enc = same ∙ ap (λ t. t ++ enc) (put_size_empty n) in
      let fits' : length (size ++ enc) ≤ usize_max = omega (arith, fits, ap length same') in
      let counted =
        read_size-behind [] enc n limits.max_container_elements "array count" fits'
          (omega (arith, few, elements)) few in
      let whole : enc ++ [] ≡ enc = append-nil enc in
      let items : read_strings is_utf8 maximum n (at size enc) ≡ ok (xs, at (size ++ enc) []) =
        rw whole at
          (back size [] (subst (λ t. length (size ++ t) ≤ usize_max) (sym whole) fits')) in
      rw same' (
        rw (new-at (size ++ enc) limits.max_total_bytes (omega (arith, total, ap length same')))
          (rw counted (rw items refl)))
