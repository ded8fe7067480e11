-- ===== src/Serde/Container/Frames.antt =====
-- A frame, a length and as many bytes, is read back wherever it stands; so are the items of arrays.
use mathlib.Core.List.{append_assoc, append-nil}
use Prim.Native.String.{String}
use rustservicelib.Base.{
  ℕ, suc, ◌+◌, ◌≤◌, List, [], ◌∷◌, ◌++◌, nat_eq, length, arith, ◌≡◌, refl, sym, ◌∙◌, ap, All,
  length-append, subst,
}
use rustservicelib.Serde.Bytes.{to_be_bytes, length-to_be_bytes}
use rustservicelib.Serde.Reader.{
  ok, usize_max, size_bytes, put_size, at, read-behind, read_size-behind, bind_ok,
}
use rustservicelib.Serde.Scalar.{Serde}
use rustservicelib.Serde.Scalar.Laws.{RoundTrips, ok_injective}
use rustservicelib.Serde.Container.{read_frame, put_frame, put_items, read_items}

abbrev pub frame : List ℕ → List ℕ
frame xs = to_be_bytes size_bytes (length xs) ++ xs

pub put_frame_lem : (output xs : List ℕ) → put_frame output xs ≡ output ++ frame xs
unfolding put_size
put_frame_lem output xs = append_assoc output (to_be_bytes size_bytes (length xs)) xs

pub length-frame : (xs : List ℕ) → length (frame xs) ≡ 8 + length xs
length-frame xs = omega (
  arith,
  length-append (to_be_bytes size_bytes (length xs)) xs,
  length-to_be_bytes size_bytes (length xs),
)

pub read_frame-behind :
    (pre xs post : List ℕ) (maximum : ℕ) (length_name name : String)
    → length (pre ++ (frame xs ++ post)) ≤ usize_max
    → length xs ≤ maximum
    → (offset : ℕ) × (read_frame maximum length_name name (at pre (frame xs ++ post))
        ≡ ok (xs, offset, at (pre ++ frame xs) post))
read_frame-behind pre xs post maximum length_name name h fits =
    let size : List ℕ = to_be_bytes size_bytes (length xs) in
    let inner : frame xs ++ post ≡ size ++ (xs ++ post) = append_assoc size xs post in
    let outer : (pre ++ size) ++ xs ≡ pre ++ frame xs = append_assoc pre size xs in
    let whole : (pre ++ size) ++ (xs ++ post) ≡ pre ++ (frame xs ++ post) =
      append_assoc pre size (xs ++ post) ∙ ap (◌++◌ pre) (sym inner) in
    let small : length xs ≤ usize_max = omega (
      arith,
      h,
      length-append pre (frame xs ++ post),
      length-append (frame xs) post,
      length-frame xs,
    ) in
    let got =
      read_size-behind pre (xs ++ post) (length xs) maximum length_name
        (subst (λ t. length (pre ++ t) ≤ usize_max) inner h) small fits in
    let got' =
      read-behind (pre ++ size) xs post name (subst (λ t. length t ≤ usize_max) (sym whole) h) in
    (
      length (pre ++ size),
      rw inner (rw got (rw got' (ap (λ t. ok (xs, length (pre ++ size), at t post)) outer))),
    )

module _ {ℓ κ} {T : Type ℓ} (s : Serde T) (P : T → Type κ) (trip : RoundTrips s P) where
  -- One element is read, and the rest behind it.
  read_items_step :
      (x : T) (xs : List T) (e enc pre post : List ℕ)
      → P x
      → s.serialize x ≡ ok e
      → length (pre ++ (frame e ++ (enc ++ post))) ≤ usize_max
      → read_items s (length xs) (at (pre ++ frame e) (enc ++ post))
        ≡ ok (xs, at ((pre ++ frame e) ++ enc) post)
      → read_items s (suc (length xs)) (at pre (frame e ++ (enc ++ post)))
        ≡ ok (x ∷ xs, at ((pre ++ frame e) ++ enc) post)
  unfolding read_items
  read_items_step x xs e enc pre post p ser fits rest =
      let total = length-append pre (frame e ++ (enc ++ post)) in
      let part = length-append (frame e) (enc ++ post) in
      let (offset, got) =
        read_frame-behind pre e (enc ++ post) (length (pre ++ (frame e ++ (enc ++ post))))
          "array element length" "array element" fits
          (omega (arith, total, part, length-frame e)) in
      let small : length e ≤ usize_max = omega (arith, fits, total, part, length-frame e) in
      rw got (rw (trip x e p ser small) (rw rest refl))

  -- What `ArraySerde` writes for the items, and that it is read back behind any bytes.
  pub items_written :
      (xs : List T) (output bs : List ℕ)
      → All P xs
      → put_items s xs output ≡ ok bs
      → (enc : List ℕ) × (bs ≡ output ++ enc)
        × ((pre post : List ℕ)
            → length (pre ++ (enc ++ post)) ≤ usize_max
            → read_items s (length xs) (at pre (enc ++ post)) ≡ ok (xs, at (pre ++ enc) post))
  unfolding put_items read_items
  items_written [] output bs a h = (
    [],
    sym (ok_injective h) ∙ sym (append-nil output),
    λ pre post fits. rw (append-nil pre) refl,
  )
  items_written (x ∷ xs) output bs a h =
      let (e, ser, more) = bind_ok (s.serialize x) _ h in
      let (enc, wrote, back) = items_written xs (put_frame output e) bs a.1 more in
      (
        frame e ++ enc,
        wrote ∙ ap (λ o. o ++ enc) (put_frame_lem output e) ∙ append_assoc output (frame e) enc,
        λ pre post fits.
            let assoc : (frame e ++ enc) ++ post ≡ frame e ++ (enc ++ post) =
              append_assoc (frame e) enc post in
            let fits' : length (pre ++ (frame e ++ (enc ++ post))) ≤ usize_max =
              subst (λ t. length (pre ++ t) ≤ usize_max) assoc fits in
            let behind : length ((pre ++ frame e) ++ (enc ++ post)) ≤ usize_max =
              subst (λ t. length t ≤ usize_max) (sym (append_assoc pre (frame e) (enc ++ post)))
                fits' in
            rw (assoc, ← append_assoc pre (frame e) enc)
              (read_items_step x xs e enc pre post a.0 ser fits'
                (back (pre ++ frame e) post behind)),
      )
