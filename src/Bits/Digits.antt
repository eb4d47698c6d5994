-- ===== src/Bits/Digits.antt =====
-- One equation for the lowest binary digit of each operation. The native operations stand for a
-- recursion on digits that takes its first argument as fuel.
use Prim.Native.Nat.{max, digits, differ, bit_and-bitwise, bit_or-bitwise, bit_xor-bitwise}
use ios_webkit_debug_proxy.Prelude.{
  ℕ, zero, suc, ◌+◌, ◌*◌, ◌/◌, ◌%◌, ◌≤◌, ◌<◌, ◌≡◌, refl, ap, min, bit_and, bit_or, bit_xor, arith,
}

-- How much fuel there is does not matter, if it is no less than the first argument.
fuel_free :
    (z : ℕ → ℕ) (f : ℕ → ℕ → ℕ) (a b n m : ℕ) → a ≤ n → a ≤ m → digits z f n a b ≡ digits z f m a b
fuel_free z f zero b zero zero p q = refl
fuel_free z f zero b zero (suc m) p q = refl
fuel_free z f zero b (suc n) zero p q = refl
fuel_free z f zero b (suc n) (suc m) p q = refl
fuel_free z f (suc a) b zero m p q = absurd (omega arith)
fuel_free z f (suc a) b (suc n) zero p q = absurd (omega arith)
fuel_free z f (suc a) b (suc n) (suc m) p q =
    ap (λ (t : ℕ). t * 2 + f (suc a % 2) (b % 2))
      (fuel_free z f (suc a / 2) (b / 2) n m (omega arith) (omega arith))

pub bit_or_digit : (a b : ℕ) → bit_or a b ≡ bit_or (a / 2) (b / 2) * 2 + max (a % 2) (b % 2)
bit_or_digit zero b = omega (arith, bit_or-bitwise 0 b, bit_or-bitwise 0 (b / 2))
bit_or_digit (suc a) b = omega (
  arith,
  bit_or-bitwise (suc a) b,
  bit_or-bitwise (suc a / 2) (b / 2),
  fuel_free (λ y. y) max (suc a / 2) (b / 2) a (suc a / 2),
)

pub bit_and_digit : (a b : ℕ) → bit_and a b ≡ bit_and (a / 2) (b / 2) * 2 + min (a % 2) (b % 2)
bit_and_digit zero b = omega (arith, bit_and-bitwise 0 b, bit_and-bitwise 0 (b / 2))
bit_and_digit (suc a) b = omega (
  arith,
  bit_and-bitwise (suc a) b,
  bit_and-bitwise (suc a / 2) (b / 2),
  fuel_free (λ y. 0) min (suc a / 2) (b / 2) a (suc a / 2),
)

differ_zero : (y : ℕ) → differ 0 y ≡ y
differ_zero y = refl

pub bit_xor_digit : (a b : ℕ) → bit_xor a b ≡ bit_xor (a / 2) (b / 2) * 2 + differ (a % 2) (b % 2)
bit_xor_digit zero b =
    omega (arith, bit_xor-bitwise 0 b, bit_xor-bitwise 0 (b / 2), differ_zero (b % 2))
bit_xor_digit (suc a) b = omega (
  arith,
  bit_xor-bitwise (suc a) b,
  bit_xor-bitwise (suc a / 2) (b / 2),
  fuel_free (λ y. y) differ (suc a / 2) (b / 2) a (suc a / 2),
)

pub differ_twice : (x y : ℕ) → x < 2 → y < 2 → (differ x y < 2) × (differ (differ x y) y ≡ x)
differ_twice zero zero p q = (omega arith, refl)
differ_twice zero (suc zero) p q = (omega arith, refl)
differ_twice (suc zero) zero p q = (omega arith, refl)
differ_twice (suc zero) (suc zero) p q = (omega arith, refl)
differ_twice (suc (suc x)) y p q = absurd (omega arith)
differ_twice zero (suc (suc y)) p q = absurd (omega arith)
differ_twice (suc zero) (suc (suc y)) p q = absurd (omega arith)
