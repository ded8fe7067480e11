-- ===== src/Serde/Order.antt =====
-- The order of byte strings, first byte first, is the order of the words that they stand for.
use native.Mathlib.Nat.{pow-suc}
use rustservicelib.Base.{
  ℕ, zero, suc, ◌/◌, ◌%◌, ◌^◌, ◌<◌, List, [], ◌∷◌, ◌++◌, arith, ◌≡◌, ◌∙◌, sym, Bool, true, false,
  ltb, ◌==◌, nat_eq, if◌then◌else◌, length, ◌||◌, ◌&&◌,
}
use rustservicelib.Serde.Bytes.{to_be_bytes, length-to_be_bytes}

-- Lexicographic, as a key-value store sorts its keys.
unfoldable pub lex_lt : List ℕ → List ℕ → Bool
lex_lt [] [] = false
lex_lt [] (c ∷ cs) = true
lex_lt (b ∷ bs) [] = false
lex_lt (b ∷ bs) (c ∷ cs) = ltb b c || (b == c && lex_lt bs cs)

lex_lt-snoc :
    (bs cs : List ℕ) (b c : ℕ)
    → length bs ≡ length cs
    → lex_lt (bs ++ b ∷ []) (cs ++ c ∷ [])
      ≡ (if lex_lt bs cs then true else if lex_lt cs bs then false else ltb b c)
unfolding lex_lt
lex_lt-snoc [] [] b c h = ground arith
lex_lt-snoc [] (y ∷ cs) b c h = absurd (omega (arith, h))
lex_lt-snoc (x ∷ bs) [] b c h = absurd (omega (arith, h))
lex_lt-snoc (x ∷ bs) (y ∷ cs) b c h =
    let same : length bs ≡ length cs = omega (arith, h) in
    ground (arith, lex_lt-snoc bs cs b c same)

-- Words of `w` bytes are ordered as their bytes.
pub lex_lt-to_be_bytes :
    (w x y : ℕ) → x < 256 ^ w → y < 256 ^ w → lex_lt (to_be_bytes w x) (to_be_bytes w y) ≡ ltb x y
unfolding to_be_bytes
lex_lt-to_be_bytes zero x y h k = unfold lex_lt in ground arith
lex_lt-to_be_bytes (suc w) x y h k =
    let small : x / 256 < 256 ^ w = omega (arith, h, pow-suc 256 w) in
    let small' : y / 256 < 256 ^ w = omega (arith, k, pow-suc 256 w) in
    lex_lt-snoc (to_be_bytes w (x / 256)) (to_be_bytes w (y / 256)) (x % 256) (y % 256)
      (length-to_be_bytes w (x / 256) ∙ sym (length-to_be_bytes w (y / 256)))
    ∙ rw
        (
          lex_lt-to_be_bytes w (x / 256) (y / 256) small small',
          lex_lt-to_be_bytes w (y / 256) (x / 256) small' small,
        )
        (digits_order x y)
  where
    digits_order :
        (x y : ℕ)
        → (if ltb (x / 256) (y / 256)
            then true
            else if ltb (y / 256) (x / 256)
            then false
            else ltb (x % 256) (y % 256))
          ≡ ltb x y
    digits_order x y = ground arith
