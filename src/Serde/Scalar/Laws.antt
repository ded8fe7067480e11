-- ===== src/Serde/Scalar/Laws.antt =====
-- Round trips and the order of the fixed-width formats.
use Prim.Native.Nat.{bit_xor}
use Prim.Native.String.{String}
use mathlib.Core.List.{append-nil}
use rustservicelib.Base.{
  ℕ, suc, ◌+◌, ◌-◌, ◌^◌, ◌<◌, ◌≤◌, List, [], ◌++◌, true, false, ltb, nat_eq, arith, ◌≡◌, refl, sym,
  ◌∙◌, ap, length, ltb-false, ltb-true,
}
use rustservicelib.Base.Int.{ℤ, pos, negsuc, ltb_ℤ}
use rustservicelib.Serde.Bytes.{to_be_bytes, from_to_be_bytes, length-to_be_bytes}
use rustservicelib.Serde.Order.{lex_lt, lex_lt-to_be_bytes}
use rustservicelib.Serde.Sign.{bit_xor_set, bit_xor_clear}
use rustservicelib.Serde.Reader.{Result, ok, ◌>>=◌, usize_max, read, read-at, at}
use rustservicelib.Serde.Reader
use rustservicelib.Serde.Scalar.{
  Serde, read_word, unsigned_serde, signed_serde, as_unsigned, as_signed, rune_serde, is_scalar,
  bool_serde,
}

-- What the format of a value of `T` promises, for the values of which `P` holds and whose
-- serialization has at most `n` bytes.
abbrev pub RoundTripsBelow {ℓ κ} : {T : Type ℓ} → ℕ → Serde T → (T → Type κ) → Type (ℓ ⊔ κ)
RoundTripsBelow {T = T} n s P =
    (x : T) (bs : List ℕ) → P x → s.serialize x ≡ ok bs → length bs ≤ n → s.deserialize bs ≡ ok x

abbrev pub RoundTrips {ℓ κ} : {T : Type ℓ} → Serde T → (T → Type κ) → Type (ℓ ⊔ κ)
RoundTrips s P = RoundTripsBelow usize_max s P

-- A word is read from its bytes, whatever follows them.
read_word_to_be :
    (w x : ℕ) (name : String) (rest : List ℕ)
    → x < 256 ^ w
    → length (to_be_bytes w x ++ rest) ≤ usize_max
    → read_word w name (to_be_bytes w x ++ rest) ≡ ok x
unfolding read_word Reader.new
read_word_to_be w x name rest h fits =
    let fits' : ltb usize_max (length (to_be_bytes w x ++ rest)) ≡ false =
      ltb-false usize_max (length (to_be_bytes w x ++ rest)) fits in
    let got = read-at [] (to_be_bytes w x) rest name fits in
    let got' = rw (length-to_be_bytes w x) at got in
    rw fits' (rw got' (ap ok (from_to_be_bytes w x h)))

read_word_exact :
    (w x : ℕ) (name : String)
    → x < 256 ^ w
    → length (to_be_bytes w x) ≤ usize_max
    → read_word w name (to_be_bytes w x) ≡ ok x
read_word_exact w x name h fits =
    let exact : to_be_bytes w x ++ [] ≡ to_be_bytes w x = append-nil (to_be_bytes w x) in
    rw exact at (read_word_to_be w x name [] h (omega (arith, fits, ap length exact)))

pub ok_injective {ℓ} : {A : Type ℓ} {x y : A} → ok x ≡ ok y → x ≡ y
ok_injective e = cc

-- A word of `w` bytes is read back from its serialization, which is no longer than a `usize` counts.
pub unsigned-RoundTrips :
    (w : ℕ) (name : String) (x : ℕ) (bs : List ℕ)
    → x < 256 ^ w
    → (unsigned_serde w name).serialize x ≡ ok bs
    → length bs ≤ usize_max
    → (unsigned_serde w name).deserialize bs ≡ ok x
unsigned-RoundTrips w name x bs h e fits =
    let same : to_be_bytes w x ≡ bs = ok_injective e in
    rw (← same) (read_word_exact w x name h (omega (arith, fits, ap length same)))

-- The range of an integer of k + 1 bits.
abbrev pub InRange : ℕ → ℤ → Type 0
InRange k (pos n) = n < 2 ^ k
InRange k (negsuc n) = n < 2 ^ k

-- An integer moved up by 2^k.
abbrev shift : ℕ → ℤ → ℕ
shift k (pos n) = n + 2 ^ k
shift k (negsuc n) = 2 ^ k - suc n

encode_shift : (k : ℕ) (x : ℤ) → InRange k x → bit_xor (as_unsigned k x) (2 ^ k) ≡ shift k x
encode_shift k (pos n) h = bit_xor_set k n h
encode_shift k (negsuc n) h =
    let split : 2 ^ k + 2 ^ k - suc n ≡ (2 ^ k - suc n) + 2 ^ k = omega (arith, h) in
    rw split (bit_xor_clear k (2 ^ k - suc n) (omega (arith, h)))

decode_shift : (k : ℕ) (x : ℤ) → InRange k x → as_signed k (bit_xor (shift k x) (2 ^ k)) ≡ x
decode_shift k (pos n) h = rw (bit_xor_clear k n h) (rw (ltb-true n (2 ^ k) h) refl)
decode_shift k (negsuc n) h =
    let back : 2 ^ k + 2 ^ k - suc ((2 ^ k - suc n) + 2 ^ k) ≡ n = omega (arith, h) in
    rw (bit_xor_set k (2 ^ k - suc n) (omega (arith, h)))
      (rw (ltb-false ((2 ^ k - suc n) + 2 ^ k) (2 ^ k) (omega arith)) (ap negsuc back))

shift_bounded : (k : ℕ) (x : ℤ) → InRange k x → shift k x < 2 ^ k + 2 ^ k
shift_bounded k (pos n) h = omega (arith, h)
shift_bounded k (negsuc n) h = omega (arith, h)

shift_order :
    (k : ℕ) (x y : ℤ) → InRange k x → InRange k y → ltb (shift k x) (shift k y) ≡ ltb_ℤ x y
shift_order k (pos n) (pos m) h h' = ground arith
shift_order k (pos n) (negsuc m) h h' = ground arith
shift_order k (negsuc n) (pos m) h h' = ground arith
shift_order k (negsuc n) (negsuc m) h h' = ground arith

-- With the mask on the sign bit, an integer of k + 1 bits, which are `w` bytes, is read back from its
-- serialization, which is no longer than a `usize` counts.
pub signed-RoundTrips :
    (w k : ℕ) (name : String) (x : ℤ) (bs : List ℕ)
    → 256 ^ w ≡ 2 ^ k + 2 ^ k
    → InRange k x
    → (signed_serde w k (2 ^ k) name).serialize x ≡ ok bs
    → length bs ≤ usize_max
    → (signed_serde w k (2 ^ k) name).deserialize bs ≡ ok x
signed-RoundTrips w k name x bs width h e fits =
    let same : to_be_bytes w (shift k x) ≡ bs =
      sym (ap (to_be_bytes w) (encode_shift k x h)) ∙ ok_injective e in
    let small : shift k x < 256 ^ w = omega (arith, width, shift_bounded k x h) in
    rw (← same) (
      rw (read_word_exact w (shift k x) name small (omega (arith, fits, ap length same)))
        (ap ok (decode_shift k x h)))

-- With the mask on the sign bit, the serializations of two integers of k + 1 bits, which are `w`
-- bytes, are ordered, first byte first, as the integers are.
pub signed_sortable :
    (w k : ℕ) (name : String) (x y : ℤ) (bs cs : List ℕ)
    → 256 ^ w ≡ 2 ^ k + 2 ^ k
    → InRange k x
    → InRange k y
    → (signed_serde w k (2 ^ k) name).serialize x ≡ ok bs
    → (signed_serde w k (2 ^ k) name).serialize y ≡ ok cs
    → lex_lt bs cs ≡ ltb_ℤ x y
signed_sortable w k name x y bs cs width h h' e e' =
    let b : to_be_bytes w (shift k x) ≡ bs =
      sym (ap (to_be_bytes w) (encode_shift k x h)) ∙ ok_injective e in
    let c : to_be_bytes w (shift k y) ≡ cs =
      sym (ap (to_be_bytes w) (encode_shift k y h')) ∙ ok_injective e' in
    rw (← b, ← c)
      (lex_lt-to_be_bytes w (shift k x) (shift k y) (omega (arith, width, shift_bounded k x h))
          (omega (arith, width, shift_bounded k y h'))
        ∙ shift_order k x y h h')

-- A Unicode scalar value is read back from its serialization, which is no longer than a `usize` counts.
pub rune-RoundTrips :
    (c : ℕ) (bs : List ℕ)
    → is_scalar c ≡ true
    → rune_serde.serialize c ≡ ok bs
    → length bs ≤ usize_max
    → rune_serde.deserialize bs ≡ ok c
rune-RoundTrips c bs h e fits =
    let same : to_be_bytes 4 c ≡ bs = ok_injective e in
    let small : c < 256 ^ 4 = scalar_small c h in
    rw (← same)
      (rw (read_word_exact 4 c "u32" small (omega (arith, fits, ap length same))) (rw h refl))
  where
    scalar_small : (c : ℕ) → is_scalar c ≡ true → c < 256 ^ 4
    scalar_small c h = ground arith

pub bool-RoundTrips : RoundTrips bool_serde (λ b. Unit {0})
unfolding Reader.new read
bool-RoundTrips true bs h e fits = rw (← ok_injective e) refl
bool-RoundTrips false bs h e fits = rw (← ok_injective e) refl
