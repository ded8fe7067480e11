-- ===== src/Serde/Sign.antt =====
-- The exclusive or with the sign bit.
use Prim.Native.Nat.{bit_xor, bit_xor-bitwise, digits, differ}
use native.Mathlib.Nat.{pow-suc}
use rustservicelib.Base.{ℕ, zero, suc, ◌+◌, ◌*◌, ◌/◌, ◌%◌, ◌^◌, ◌<◌, ◌≤◌, arith, ◌≡◌, refl, ◌∙◌, ap}

abbrev xor_digits : ℕ → ℕ → ℕ → ℕ
xor_digits n a b = digits (λ b. b) differ n a b

xor_digits_fuel : (n m a b : ℕ) → a ≤ n → a ≤ m → xor_digits n a b ≡ xor_digits m a b
xor_digits_fuel zero zero a b p q = refl
xor_digits_fuel zero (suc m) zero b p q = refl
xor_digits_fuel zero (suc m) (suc a) b p q = absurd (omega arith)
xor_digits_fuel (suc n) zero zero b p q = refl
xor_digits_fuel (suc n) zero (suc a) b p q = absurd (omega arith)
xor_digits_fuel (suc n) (suc m) zero b p q = refl
xor_digits_fuel (suc n) (suc m) (suc a) b p q =
    omega (arith, xor_digits_fuel n m (suc a / 2) (b / 2) (omega arith) (omega arith))

bit_xor_zero : (b : ℕ) → bit_xor 0 b ≡ b
bit_xor_zero b = bit_xor-bitwise 0 b

bit_xor_step : (a b : ℕ) → bit_xor a b ≡ bit_xor (a / 2) (b / 2) * 2 + differ (a % 2) (b % 2)
bit_xor_step zero b = omega (arith, bit_xor_zero b, bit_xor_zero (b / 2))
bit_xor_step (suc a) b = omega (
  arith,
  bit_xor-bitwise (suc a) b,
  bit_xor-bitwise (suc a / 2) (b / 2),
  xor_digits_fuel a (suc a / 2) (suc a / 2) (b / 2) (omega arith) (omega arith),
)

differ_zero : (a : ℕ) → differ a 0 ≡ a
differ_zero zero = refl
differ_zero (suc a) = refl

half_step : (a k : ℕ) → bit_xor a (2 ^ suc k) ≡ bit_xor (a / 2) (2 ^ k) * 2 + a % 2
half_step a k =
    let even : 2 ^ suc k / 2 ≡ 2 ^ k = omega (arith, pow-suc 2 k) in
    let rest : 2 ^ suc k % 2 ≡ 0 = omega (arith, pow-suc 2 k) in
    bit_xor_step a (2 ^ suc k)
    ∙ rw (even, rest) (ap (λ (t : ℕ). bit_xor (a / 2) (2 ^ k) * 2 + t) (differ_zero (a % 2)))

-- A word with the top bit clear gets it set, and the other way round.
pub bit_xor_set : (k a : ℕ) → a < 2 ^ k → bit_xor a (2 ^ k) ≡ a + 2 ^ k
bit_xor_set zero zero h = refl
bit_xor_set zero (suc a) h = absurd (omega (arith, h))
bit_xor_set (suc k) a h =
    half_step a k
    ∙ omega (arith, bit_xor_set k (a / 2) (omega (arith, h, pow-suc 2 k)), pow-suc 2 k)

pub bit_xor_clear : (k a : ℕ) → a < 2 ^ k → bit_xor (a + 2 ^ k) (2 ^ k) ≡ a
bit_xor_clear zero zero h = refl
bit_xor_clear zero (suc a) h = absurd (omega (arith, h))
bit_xor_clear (suc k) a h =
    let half : (a + 2 ^ suc k) / 2 ≡ a / 2 + 2 ^ k = omega (arith, pow-suc 2 k) in
    half_step (a + 2 ^ suc k) k
    ∙ rw half (omega (arith, bit_xor_clear k (a / 2) (omega (arith, h, pow-suc 2 k)), pow-suc 2 k))
