-- ===== src/Prelude/Bits.antt =====
-- Laws of `bit_and` and `bit_or` at variables: six-bit masks and disjoint fields.
use Prim.Native.Nat.{
  ℕ, zero, suc, ◌+◌, ◌*◌, ◌/◌, ◌%◌, ◌≤◌, ◌<◌, min, max, bit_and, bit_or, digits, bit_and-bitwise,
  bit_or-bitwise,
}
use mathlib.Core.Path.{◌≡◌, refl}
use native.Mathlib.Omega.{arith}

-- With fuel for the first operand, more fuel changes nothing.
module _ (z : ℕ → ℕ) (f : ℕ → ℕ → ℕ) where
  digits-zero : (fuel y : ℕ) → digits z f fuel 0 y ≡ z y
  digits-zero zero y = refl
  digits-zero (suc fuel) y = refl

  digits-enough : (y x : ℕ) (m n : ℕ) → x ≤ n → x ≤ m → digits z f n x y ≡ digits z f m x y
  digits-enough y zero m n _ _ = omega (arith, digits-zero n y, digits-zero m y)
  digits-enough y (suc x) zero n _ short = absurd (omega arith)
  digits-enough y (suc x) (suc m) zero short _ = absurd (omega arith)
  digits-enough y (suc x) (suc m) (suc n) hn hm =
      let rest = digits-enough (y / 2) (suc x / 2) m n (omega arith) (omega arith) in
      omega (arith, rest)

bit_and_nothing : (y : ℕ) → bit_and 0 y ≡ 0
bit_and_nothing y = bit_and-bitwise 0 y

bit_or_nothing : (y : ℕ) → bit_or 0 y ≡ y
bit_or_nothing y = bit_or-bitwise 0 y

-- The lowest digit of a conjunction and of a disjunction.
bit_and_low : (x y : ℕ) → bit_and x y ≡ min (x % 2) (y % 2) + 2 * bit_and (x / 2) (y / 2)
bit_and_low zero y = omega (arith, bit_and_nothing (y / 2), bit_and_nothing y)
bit_and_low (suc x) y =
    let fuel = digits-enough (λ d. zero) min (y / 2) (suc x / 2) in
    let enough = fuel (suc x / 2) x (omega arith) (omega arith) in
    omega (arith, enough, bit_and-bitwise (suc x / 2) (y / 2), bit_and-bitwise (suc x) y)

bit_or_low : (x y : ℕ) → bit_or x y ≡ max (x % 2) (y % 2) + 2 * bit_or (x / 2) (y / 2)
bit_or_low zero y = omega (arith, bit_or_nothing (y / 2), bit_or_nothing y)
bit_or_low (suc x) y =
    let fuel = digits-enough (λ d. d) max (y / 2) (suc x / 2) in
    let enough = fuel (suc x / 2) x (omega arith) (omega arith) in
    omega (arith, enough, bit_or-bitwise (suc x / 2) (y / 2), bit_or-bitwise (suc x) y)

bit_and-zero_up_to : (bound x : ℕ) → x ≤ bound → bit_and x 0 ≡ 0
bit_and-zero_up_to bound zero le = refl
bit_and-zero_up_to zero (suc x) le = absurd (omega arith)
bit_and-zero_up_to (suc bound) (suc x) le =
    let half = bit_and-zero_up_to bound (suc x / 2) (omega arith) in
    omega (arith, half, bit_and_low (suc x) 0)

bit_or-zero_up_to : (bound x : ℕ) → x ≤ bound → bit_or x 0 ≡ x
bit_or-zero_up_to bound zero le = refl
bit_or-zero_up_to zero (suc x) le = absurd (omega arith)
bit_or-zero_up_to (suc bound) (suc x) le =
    let half = bit_or-zero_up_to bound (suc x / 2) (omega arith) in
    omega (arith, half, bit_or_low (suc x) 0)

-- The mask of six ones is the remainder by 64.
pub bit_and-sixty_three : (a : ℕ) → bit_and a 63 ≡ a % 64
bit_and-sixty_three a = omega (
  arith,
  bit_and_low a 63,
  bit_and_low (a / 2) 31,
  bit_and_low (a / 2 / 2) 15,
  bit_and_low (a / 2 / 2 / 2) 7,
  bit_and_low (a / 2 / 2 / 2 / 2) 3,
  bit_and_low (a / 2 / 2 / 2 / 2 / 2) 1,
  bit_and-zero_up_to (a / 2 / 2 / 2 / 2 / 2 / 2) (a / 2 / 2 / 2 / 2 / 2 / 2) (omega arith),
)

-- The mask of eight ones is the remainder by 256.
pub bit_and_byte : (a : ℕ) → bit_and a 255 ≡ a % 256
bit_and_byte a =
    ground (arith, bit_and_low a 255, bit_and_low (a / 2) 127, bit_and-sixty_three (a / 4))

bit_and_double : (a m : ℕ) → bit_and a (m * 2) ≡ bit_and (a / 2) m * 2
bit_and_double a m = ground (arith, bit_and_low a (m * 2))

bit_or_double : (a r : ℕ) → bit_or (a * 2) r ≡ bit_or a (r / 2) * 2 + r % 2
bit_or_double a r = ground (arith, bit_or_low (a * 2) r)

-- A mask of six shifted bits selects from the shifted number.
pub bit_and-shift_six : (a m : ℕ) → bit_and a (m * 64) ≡ bit_and (a / 64) m * 64
bit_and-shift_six a m = ground (
  arith,
  bit_and_double a (m * 32),
  bit_and_double (a / 2) (m * 16),
  bit_and_double (a / 4) (m * 8),
  bit_and_double (a / 8) (m * 4),
  bit_and_double (a / 16) (m * 2),
  bit_and_double (a / 32) m,
)

-- Six low bits are put beside a number shifted by six.
pub bit_or_six : (a r : ℕ) → r < 64 → bit_or (a * 64) r ≡ a * 64 + r
bit_or_six a r h = ground (
  arith,
  bit_or_double (a * 32) r,
  bit_or_double (a * 16) (r / 2),
  bit_or_double (a * 8) (r / 4),
  bit_or_double (a * 4) (r / 8),
  bit_or_double (a * 2) (r / 16),
  bit_or_double a (r / 32),
  bit_or-zero_up_to a a,
)
