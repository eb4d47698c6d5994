-- ===== src/Bits.antt =====
-- The bit operations of C on unsigned values, as arithmetic: `|` of fields that do not overlap, `&`
-- with a mask of low bits, and `^` applied twice. Shifts are `* 2 ^ k` and `/ 2 ^ k`.
mod Digits
use Digits.{bit_or_digit, bit_and_digit, bit_xor_digit, differ_twice}
use Prim.Native.Nat.{differ}
use native.Mathlib.Nat.{pow-suc, one-le-pow}
use ios_webkit_debug_proxy.Prelude.{
  ℕ, zero, suc, ◌+◌, ◌-◌, ◌*◌, ◌/◌, ◌%◌, ◌^◌, ◌≤◌, ◌<◌, ◌≡◌, refl, sym, ap, ap₂, ◌∙◌, dec_lt,
  bit_and, bit_or, bit_xor, arith, Bool, true, ◌&&◌, ◌==◌, ==_iff,
}

bit_or-zero_fuel : (n a : ℕ) → a ≤ n → bit_or a 0 ≡ a
bit_or-zero_fuel zero zero h = refl
bit_or-zero_fuel zero (suc a) h = absurd (omega arith)
bit_or-zero_fuel (suc n) zero h = refl
bit_or-zero_fuel (suc n) (suc a) h =
    omega (arith, bit_or_digit (suc a) 0, bit_or-zero_fuel n (suc a / 2) (omega arith))

zero_bit_or : (n a : ℕ) → a ≤ n → bit_or 0 a ≡ a
zero_bit_or zero zero h = refl
zero_bit_or zero (suc a) h = absurd (omega arith)
zero_bit_or (suc n) zero h = refl
zero_bit_or (suc n) (suc a) h =
    omega (arith, bit_or_digit 0 (suc a), zero_bit_or n (suc a / 2) (omega arith))

twice_shifted : (x k : ℕ) → x * 2 ^ suc k ≡ 2 * (x * 2 ^ k)
twice_shifted x k = omega (arith, ap (λ (p : ℕ). x * p) (pow-suc 2 k))

-- `(x << k) | y` for a `y` of `k` bits.
pub bit_or_low : (k x y : ℕ) → y < 2 ^ k → bit_or (x * 2 ^ k) y ≡ x * 2 ^ k + y
bit_or_low zero x zero h = omega (arith, bit_or-zero_fuel (x * 2 ^ 0) (x * 2 ^ 0) (omega arith))
bit_or_low zero x (suc y) h = absurd (omega arith)
bit_or_low (suc k) x y h = omega (
  arith,
  twice_shifted x k,
  pow-suc 2 k,
  bit_or_digit (x * 2 ^ suc k) y,
  ap (λ (t : ℕ). bit_or t (y / 2)) halved,
  bit_or_low k x (y / 2) (omega (arith, pow-suc 2 k)),
)
  where
    halved : x * 2 ^ suc k / 2 ≡ x * 2 ^ k
    halved = omega (arith, twice_shifted x k)

-- `y | (x << k)` for a `y` of `k` bits.
pub bit_or_high : (k x y : ℕ) → y < 2 ^ k → bit_or y (x * 2 ^ k) ≡ x * 2 ^ k + y
bit_or_high zero x zero h = omega (arith, zero_bit_or (x * 2 ^ 0) (x * 2 ^ 0) (omega arith))
bit_or_high zero x (suc y) h = absurd (omega arith)
bit_or_high (suc k) x y h = omega (
  arith,
  twice_shifted x k,
  pow-suc 2 k,
  bit_or_digit y (x * 2 ^ suc k),
  ap (λ (t : ℕ). bit_or (y / 2) t) halved,
  bit_or_high k x (y / 2) (omega (arith, pow-suc 2 k)),
)
  where
    halved : x * 2 ^ suc k / 2 ≡ x * 2 ^ k
    halved = omega (arith, twice_shifted x k)

bit_and-zero_fuel : (n a : ℕ) → a ≤ n → bit_and a 0 ≡ 0
bit_and-zero_fuel zero zero h = refl
bit_and-zero_fuel zero (suc a) h = absurd (omega arith)
bit_and-zero_fuel (suc n) zero h = refl
bit_and-zero_fuel (suc n) (suc a) h =
    omega (arith, bit_and_digit (suc a) 0, bit_and-zero_fuel n (suc a / 2) (omega arith))

bit_and_fields : (k q r : ℕ) → r < 2 ^ k → bit_and (q * 2 ^ k + r) (2 ^ k - 1) ≡ r
bit_and_fields zero q r h =
    omega (arith, bit_and-zero_fuel (q * 2 ^ 0 + r) (q * 2 ^ 0 + r) (omega arith))
bit_and_fields (suc k) q r h = omega (
  arith,
  bit_and_digit (q * 2 ^ suc k + r) (2 ^ suc k - 1),
  ap₂ bit_and halved mask_halved,
  bit_and_fields k q (r / 2) (omega (arith, pow-suc 2 k)),
  twice_shifted q k,
  pow-suc 2 k,
  one-le-pow k 2,
)
  where
    halved : (q * 2 ^ suc k + r) / 2 ≡ q * 2 ^ k + r / 2
    halved = omega (arith, twice_shifted q k)

    mask_halved : (2 ^ suc k - 1) / 2 ≡ 2 ^ k - 1
    mask_halved = omega (arith, pow-suc 2 k, one-le-pow k 2)

-- `x & (2 ^ k - 1)`.
pub bit_and_mask : (k x : ℕ) → bit_and x (2 ^ k - 1) ≡ x % 2 ^ k
bit_and_mask k x = ground (arith, one-le-pow k 2, bit_and_fields k (x / 2 ^ k) (x % 2 ^ k))

bit_xor_twice_digit :
    (a m : ℕ) → bit_xor (bit_xor (a / 2) (m / 2)) (m / 2) ≡ a / 2 → bit_xor (bit_xor a m) m ≡ a
bit_xor_twice_digit a m h = omega (
  arith,
  bit_xor_digit (bit_xor a m) m,
  ap (λ (t : ℕ). bit_xor t (m / 2)) high,
  ap (λ (t : ℕ). differ t (m % 2)) low,
  bits.1,
  h,
)
  where
    bits : (differ (a % 2) (m % 2) < 2) × (differ (differ (a % 2) (m % 2)) (m % 2) ≡ a % 2)
    bits = differ_twice (a % 2) (m % 2) (omega arith) (omega arith)

    high : bit_xor a m / 2 ≡ bit_xor (a / 2) (m / 2)
    high = omega (arith, bit_xor_digit a m, bits.0)

    low : bit_xor a m % 2 ≡ differ (a % 2) (m % 2)
    low = omega (arith, bit_xor_digit a m, bits.0)

bit_xor_twice_fuel : (n a m : ℕ) → a + m ≤ n → bit_xor (bit_xor a m) m ≡ a
bit_xor_twice_fuel zero zero zero h = refl
bit_xor_twice_fuel zero zero (suc m) h = absurd (omega arith)
bit_xor_twice_fuel zero (suc a) m h = absurd (omega arith)
bit_xor_twice_fuel (suc n) zero zero h = refl
bit_xor_twice_fuel (suc n) zero (suc m) h =
    bit_xor_twice_digit 0 (suc m) (bit_xor_twice_fuel n (0 / 2) (suc m / 2) (omega arith))
bit_xor_twice_fuel (suc n) (suc a) m h =
    bit_xor_twice_digit (suc a) m (bit_xor_twice_fuel n (suc a / 2) (m / 2) (omega arith))

-- A mask applied twice is undone.
pub bit_xor_twice : (a m : ℕ) → bit_xor (bit_xor a m) m ≡ a
bit_xor_twice a m = bit_xor_twice_fuel (a + m) a m (omega arith)

bit_and_even : (x m : ℕ) → bit_and x (m * 2) ≡ 2 * bit_and (x / 2) m
bit_and_even x m =
    let half : m * 2 / 2 ≡ m = omega arith in
    let even : m * 2 % 2 ≡ 0 = omega arith in
    omega (arith, bit_and_digit x (m * 2), ap (λ (t : ℕ). bit_and (x / 2) t) half, even)

-- The bit `k` of a number that has no higher bit.
bit_and_below : (k x : ℕ) → x < 2 ^ k → bit_and x (2 ^ k) ≡ 0
bit_and_below zero zero h = refl
bit_and_below zero (suc x) h = absurd (omega arith)
bit_and_below (suc k) x h =
    let small : x / 2 < 2 ^ k = omega (arith, h, pow-suc 2 k) in
    rw (pow-suc 2 k) (omega (arith, bit_and_even x (2 ^ k), bit_and_below k (x / 2) small))

bit_and_above : (k r : ℕ) → r < 2 ^ k → bit_and (2 ^ k + r) (2 ^ k) ≡ 2 ^ k
bit_and_above zero zero h = refl
bit_and_above zero (suc r) h = absurd (omega arith)
bit_and_above (suc k) r h =
    let small : r / 2 < 2 ^ k = omega (arith, h, pow-suc 2 k) in
    let halved : (2 ^ k * 2 + r) / 2 ≡ 2 ^ k + r / 2 = omega arith in
    rw (pow-suc 2 k) (
      omega (
        arith,
        bit_and_even (2 ^ k * 2 + r) (2 ^ k),
        ap (λ (t : ℕ). bit_and t (2 ^ k)) halved,
        bit_and_above k (r / 2) small,
      ))

-- `x & 0x80` of a byte.
pub bit_and_top : (x : ℕ) → x < 256 → bit_and x 0x80 ≡ x / 128 * 128
bit_and_top x h = elim (dec_lt x 128) [
  | yes low ↦ omega (arith, low, bit_and_below 7 x low)
  | no high ↦
      let rest : 128 + (x - 128) ≡ x = omega (arith, high) in
      let above : bit_and x 128 ≡ 128 =
        ap (λ (t : ℕ). bit_and t 128) (sym rest) ∙ bit_and_above 7 (x - 128) (omega (arith, h)) in
      omega (arith, h, high, above)
]
