-- ===== src/Serde/Bytes.antt =====
-- Big-endian bytes of unsigned words: `to_be_bytes` and `from_be_bytes` at a width of `w` bytes.
use native.Mathlib.Nat.{pow-suc}
use rustservicelib.Base.{
  ℕ, zero, suc, ◌+◌, ◌*◌, ◌/◌, ◌%◌, ◌^◌, ◌<◌, List, [], ◌∷◌, ◌++◌, arith, ◌≡◌, refl, ◌∙◌, length,
  length-append, All,
}

unfoldable pub to_be_bytes : ℕ → ℕ → List ℕ
to_be_bytes zero x = []
to_be_bytes (suc w) x = to_be_bytes w (x / 256) ++ (x % 256) ∷ []

unfoldable pub from_be_bytes : ℕ → List ℕ → ℕ
from_be_bytes acc [] = acc
from_be_bytes acc (b ∷ bs) = from_be_bytes (acc * 256 + b) bs

pub length-to_be_bytes : (w x : ℕ) → length (to_be_bytes w x) ≡ w
unfolding to_be_bytes
length-to_be_bytes zero x = refl
length-to_be_bytes (suc w) x = omega (
  arith,
  length-append (to_be_bytes w (x / 256)) ((x % 256) ∷ []),
  length-to_be_bytes w (x / 256),
)

pub from_be_bytes-snoc :
    (acc : ℕ) (bs : List ℕ) (b : ℕ)
    → from_be_bytes acc (bs ++ b ∷ []) ≡ from_be_bytes acc bs * 256 + b
unfolding from_be_bytes
from_be_bytes-snoc acc [] b = refl
from_be_bytes-snoc acc (c ∷ bs) b = from_be_bytes-snoc (acc * 256 + c) bs b

-- A word of `w` bytes is read back from its bytes.
pub from_to_be_bytes : (w x : ℕ) → x < 256 ^ w → from_be_bytes 0 (to_be_bytes w x) ≡ x
unfolding to_be_bytes from_be_bytes
from_to_be_bytes zero x h = omega (arith, h)
from_to_be_bytes (suc w) x h =
    let small : x / 256 < 256 ^ w = omega (arith, h, pow-suc 256 w) in
    from_be_bytes-snoc 0 (to_be_bytes w (x / 256)) (x % 256)
    ∙ omega (arith, from_to_be_bytes w (x / 256) small)

-- Every byte is one.
pub to_be_bytes-bounded : (w x : ℕ) → All (λ b. b < 256) (to_be_bytes w x)
unfolding to_be_bytes
to_be_bytes-bounded zero x = tt
to_be_bytes-bounded (suc w) x = snoc (to_be_bytes w (x / 256)) (to_be_bytes-bounded w (x / 256))
  where
    snoc : (bs : List ℕ) → All (λ b. b < 256) bs → All (λ b. b < 256) (bs ++ (x % 256) ∷ [])
    snoc [] h = (omega arith, tt)
    snoc (b ∷ bs) h = (h.0, snoc bs h.1)
