-- ===== src/WebInspector/Packet/Laws.antt =====
-- What `wi_send` writes is what `wi_parse_length` reads.
use ios_webkit_debug_proxy.Prelude.{
  ℕ, ◌+◌, ◌*◌, ◌/◌, ◌%◌, ◌^◌, ◌≤◌, ◌<◌, ◌≡◌, refl, bit_or, List, [], ◌∷◌, ◌++◌, length, take, drop,
  arith,
}
use ios_webkit_debug_proxy.Prelude.Status.{success, error}
use ios_webkit_debug_proxy.Bits.{bit_and_mask, bit_or_low}
use ios_webkit_debug_proxy.WebInspector.Packet.{max_body_length, length_bytes, parse_length}

-- Four bytes put together.
or_bytes :
    (a b c d : ℕ)
    → b < 256
    → c < 256
    → d < 256
    → bit_or (bit_or (bit_or (a * 2 ^ 24) (b * 2 ^ 16)) (c * 2 ^ 8)) d
      ≡ a * 2 ^ 24 + b * 2 ^ 16 + c * 2 ^ 8 + d
or_bytes a b c d hb hc hd =
    rw
      (
        bit_or_low 24 a (b * 2 ^ 16) (omega arith),
        top,
        bit_or_low 16 (a * 2 ^ 8 + b) (c * 2 ^ 8) (omega arith),
        middle,
        bit_or_low 8 ((a * 2 ^ 8 + b) * 2 ^ 8 + c) d (omega arith),
      )
      (omega arith)
  where
    top : a * 2 ^ 24 + b * 2 ^ 16 ≡ (a * 2 ^ 8 + b) * 2 ^ 16
    top = omega arith

    middle : (a * 2 ^ 8 + b) * 2 ^ 16 + c * 2 ^ 8 ≡ ((a * 2 ^ 8 + b) * 2 ^ 8 + c) * 2 ^ 8
    middle = omega arith

-- The value of four bytes, most significant first.
pub big_endian : ℕ → ℕ → ℕ → ℕ → ℕ
big_endian a b c d = ((a * 256 + b) * 256 + c) * 256 + d

-- `wi_parse_length` reads four bytes as a big-endian number, and refuses it if it is over the limit.
pub parse_length-bytes :
    (a b c d : ℕ)
    → a < 256
    → b < 256
    → c < 256
    → d < 256
    → let n = big_endian a b c d in
      (n ≤ max_body_length → parse_length (a ∷ b ∷ c ∷ d ∷ []) ≡ (success, n))
      × (max_body_length < n → (parse_length (a ∷ b ∷ c ∷ d ∷ [])).0 ≡ error)
unfolding parse_length big_endian
parse_length-bytes a b c d ha hb hc hd = ground (
  arith,
  bit_and_mask 8 a,
  bit_and_mask 8 b,
  bit_and_mask 8 c,
  bit_and_mask 8 d,
  or_bytes a b c d hb hc hd,
)

big_endian-digits :
    (n : ℕ)
    → n < 2 ^ 32
    → big_endian (n / 2 ^ 24 % 256) (n / 2 ^ 16 % 256) (n / 2 ^ 8 % 256) (n % 256) ≡ n
unfolding big_endian
big_endian-digits n h = omega arith

-- Reading back the four bytes that `wi_send` writes gives the length, up to the limit.
pub parse_length-length_bytes :
    (n : ℕ) → n ≤ max_body_length → parse_length (length_bytes n) ≡ (success, n)
unfolding length_bytes
parse_length-length_bytes n h =
    let whole = big_endian-digits n (omega arith) in
    let read =
      parse_length-bytes (n / 2 ^ 24 % 256) (n / 2 ^ 16 % 256) (n / 2 ^ 8 % 256) (n % 256)
        (omega arith) (omega arith) (omega arith) (omega arith) in
    rw (
      bit_and_mask 8 (n / 2 ^ 24),
      bit_and_mask 8 (n / 2 ^ 16),
      bit_and_mask 8 (n / 2 ^ 8),
      bit_and_mask 8 n,
      read.0 (rw whole h),
      whole,
    )

-- What `wi_send` gives to the transport for a body.
abbrev pub frame : List ℕ → List ℕ
frame body = length_bytes (length body) ++ body

pub length-length_bytes :
    (n : ℕ) (body : List ℕ) → length (length_bytes n ++ body) ≡ length body + 4
unfolding length_bytes
length-length_bytes n body = omega arith

pub take-length_bytes : (n : ℕ) (body : List ℕ) → take 4 (length_bytes n ++ body) ≡ length_bytes n
unfolding length_bytes
take-length_bytes n body = refl

pub drop-length_bytes : (n : ℕ) (body : List ℕ) → drop 4 (length_bytes n ++ body) ≡ body
unfolding length_bytes
drop-length_bytes n body = refl
