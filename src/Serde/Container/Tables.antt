-- ===== src/Serde/Container/Tables.antt =====
-- The round trip of `MapSerde`, whose result is built anew: it has the same values for all keys.
use rustservicelib.Base.{
  ℕ, suc, ◌≤◌, List, [], ◌∷◌, ◌++◌, Eq, nat_eq, length, arith, ◌≡◌, refl, sym, ◌∙◌, ap,
  length-append, map, none, lookup, insert_all, IsMap, insert_all-IsMap, lookup-insert_all,
  beq_refl, or_else,
}
use rustservicelib.Serde.Reader.{ok, usize_max, bind_ok}
use rustservicelib.Serde.Scalar.{Serde}
use rustservicelib.Serde.Scalar.Laws.{RoundTrips, ok_injective}
use rustservicelib.Serde.Container.{put_frame, map_serde, zip}
use rustservicelib.Serde.Container.Frames.{frame, put_frame_lem, length-frame}
use rustservicelib.Serde.Container.Laws.{new-at, two_frames}

length-map {ℓ κ} :
    {A : Type ℓ} {B : Type κ} (f : A → B) (xs : List A) → length (map f xs) ≡ length xs
length-map f [] = refl
length-map f (x ∷ xs) = ap suc (length-map f xs)

zip-map {ℓ κ} :
    {K : Type ℓ} {V : Type κ} (m : List (K × V)) → zip (map (λ p. p.0) m) (map (λ p. p.1) m) ≡ m
unfolding zip
zip-map [] = refl
zip-map (x ∷ m) = ap (λ t. x ∷ t) (zip-map m)

lookup_or_none {ℓ κ} :
    {K : Type ℓ} {V : Type κ} ⦃e : Eq K⦄ (k : K) (m : List (K × V))
    → or_else (lookup k m) none ≡ lookup k m
lookup_or_none k m = ground arith

-- From the serialization of a map, which a `usize` counts, a map is read that has no key twice and
-- the same value for every key, where the serdes of the arrays read back its keys and its values.
pub map-RoundTrips {ℓ κ μ ν} :
    {K : Type ℓ} {V : Type κ} ⦃e : Eq K⦄ (ks : Serde (List K)) (P : List K → Type μ)
    (vs : Serde (List V)) (Q : List V → Type ν)
    → RoundTrips ks P
    → RoundTrips vs Q
    → (m : List (K × V)) (bs : List ℕ) → IsMap m
    → P (map (λ p. p.0) m)
    → Q (map (λ p. p.1) m)
    → (map_serde ks vs).serialize m ≡ ok bs
    → length bs ≤ usize_max
    → (m' : List (K × V)) × ((map_serde ks vs).deserialize bs ≡ ok m')
      × IsMap m'
      × ((k : K) → lookup k m' ≡ lookup k m)
unfolding lookup
map-RoundTrips ks P vs Q trip trip' m bs u p q h fits =
    let (keys, ser, more) = bind_ok (ks.serialize (map (λ p. p.0) m)) _ h in
    let (values, ser', wrote) = bind_ok (vs.serialize (map (λ p. p.1) m)) _ more in
    let same : bs ≡ frame keys ++ frame values =
      sym (ok_injective wrote)
      ∙ put_frame_lem (put_frame [] keys) values
      ∙ ap (λ t. t ++ frame values) (put_frame_lem [] keys) in
    let fits' : length (frame keys ++ frame values) ≤ usize_max =
      omega (arith, fits, ap length same) in
    let total = length-append (frame keys) (frame values) in
    let small : length keys ≤ usize_max = omega (arith, fits', total, length-frame keys) in
    let small' : length values ≤ usize_max = omega (arith, fits', total, length-frame values) in
    let (o, o', r, r', got, input, got') =
      two_frames keys values "map keys length" "map keys" "map values length" "map values" fits' in
    let read_keys = trip (map (λ p. p.0) m) keys p ser small in
    let read_values = trip' (map (λ p. p.1) m) values q ser' small' in
    (
      insert_all m [],
      rw same (
          rw (new-at (frame keys ++ frame values) usize_max fits') (
            rw got (
              rw read_keys (
                rw got' (
                  rw read_values (
                    rw
                      (
                        length-map (λ p. p.0) m,
                        length-map (λ p. p.1) m,
                        beq_refl (length m),
                        zip-map m,
                      )
                      refl)))))),
      insert_all-IsMap m [] tt,
      λ k. lookup-insert_all k m [] u ∙ lookup_or_none k m,
    )
