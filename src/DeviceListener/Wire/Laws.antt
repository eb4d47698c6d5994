-- ===== src/DeviceListener/Wire/Laws.antt =====
-- What `dl_sprintf_uint32` writes is what `dl_sscanf_uint32` reads.
use ios_webkit_debug_proxy.Prelude.{ℕ, ◌+◌, ◌*◌, ◌/◌, ◌%◌, ◌^◌, ◌<◌, ◌≡◌, List, ◌∷◌, ◌++◌, arith}
use ios_webkit_debug_proxy.Bits.{bit_and_mask, bit_or_high}
use ios_webkit_debug_proxy.DeviceListener.Wire.{sprintf_uint32, sscanf_uint32}

-- `dl_sscanf_uint32` reads four bytes as a little-endian number.
pub sscanf_uint32-bytes :
    (a b c d : ℕ) (more : List ℕ)
    → a < 256
    → b < 256
    → c < 256
    → d < 256
    → sscanf_uint32 (a ∷ b ∷ c ∷ d ∷ more) ≡ a + 256 * (b + 256 * (c + 256 * d))
unfolding sscanf_uint32
sscanf_uint32-bytes a b c d more ha hb hc hd =
    rw
      (
        bit_and_mask 8 a,
        bit_and_mask 8 b,
        bit_and_mask 8 c,
        bit_and_mask 8 d,
        bit_or_high 0 (a % 2 ^ 8) 0 (omega arith),
        bit_or_high 8 (b % 2 ^ 8) (a % 2 ^ 8 * 2 ^ 0 + 0) (omega arith),
        bit_or_high 16 (c % 2 ^ 8) (b % 2 ^ 8 * 2 ^ 8 + (a % 2 ^ 8 * 2 ^ 0 + 0)) (omega arith),
        bit_or_high 24 (d % 2 ^ 8)
            (c % 2 ^ 8 * 2 ^ 16 + (b % 2 ^ 8 * 2 ^ 8 + (a % 2 ^ 8 * 2 ^ 0 + 0))) (omega arith),
      )
      (omega arith)

-- Reading back the four bytes that `dl_sprintf_uint32` writes gives the 32-bit number, whatever
-- stands behind them.
pub sscanf_uint32-sprintf_uint32 :
    (n : ℕ) (more : List ℕ) → n < 2 ^ 32 → sscanf_uint32 (sprintf_uint32 n ++ more) ≡ n
unfolding sprintf_uint32
sscanf_uint32-sprintf_uint32 n more h =
    rw
      (
        bit_and_mask 8 (n / 2 ^ 0),
        bit_and_mask 8 (n / 2 ^ 8),
        bit_and_mask 8 (n / 2 ^ 16),
        bit_and_mask 8 (n / 2 ^ 24),
        sscanf_uint32-bytes (n / 2 ^ 0 % 2 ^ 8) (n / 2 ^ 8 % 2 ^ 8) (n / 2 ^ 16 % 2 ^ 8)
            (n / 2 ^ 24 % 2 ^ 8) more (omega arith) (omega arith) (omega arith) (omega arith),
      )
      (omega arith)
