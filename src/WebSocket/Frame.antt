-- ===== src/WebSocket/Frame.antt =====
-- The bytes of a frame: the mask is undone by itself, and the header's bits and lengths are read as
-- they were written.
use ios_webkit_debug_proxy.Prelude.{
  ℕ, zero, suc, ◌+◌, ◌*◌, ◌/◌, ◌%◌, ◌^◌, ◌≤◌, ◌<◌, ◌≡◌, refl, ap, ap₂, ◌∙◌, bit_and, bit_or, Bool,
  true, false, not, List, [], ◌∷◌, length, get_or, ◌==◌, if◌then◌else◌, arith, inl, inr, ◌⊎◌,
}
use ios_webkit_debug_proxy.Bits.{bit_and_mask, bit_or_low, bit_xor_twice, bit_and_top}
use ios_webkit_debug_proxy.WebSocket.{
  is_opcode, apply_mask, extended_bytes, read_extended, payload_n, extended_n, length_byte,
}

-- A mask applied twice is undone.
pub apply_mask-apply_mask :
    (mask : List ℕ) (mask_offset : ℕ) (text : List ℕ)
    → apply_mask mask mask_offset (apply_mask mask mask_offset text) ≡ text
unfolding apply_mask
apply_mask-apply_mask mask k [] = refl
apply_mask-apply_mask mask k (ch ∷ text) =
    ap₂ (λ x xs. x ∷ xs) (bit_xor_twice ch (get_or mask (bit_and k 3) 0))
      (apply_mask-apply_mask mask ((k + 1) % 2 ^ 32) text)

pub length-apply_mask :
    (mask : List ℕ) (mask_offset : ℕ) (text : List ℕ)
    → length (apply_mask mask mask_offset text) ≡ length text
unfolding apply_mask
length-apply_mask mask k [] = refl
length-apply_mask mask k (ch ∷ text) = ap suc (length-apply_mask mask ((k + 1) % 2 ^ 32) text)

-- One round of the loop that reads a length.
one_byte : (q : ℕ) → q < 2 ^ 64 → bit_or (q / 2 ^ 8 * 2 ^ 8 % 2 ^ 64) (bit_and q 0xFF) ≡ q
one_byte q h =
    let fits : q / 2 ^ 8 * 2 ^ 8 % 2 ^ 64 ≡ q / 2 ^ 8 * 2 ^ 8 = omega arith in
    rw (fits, bit_and_mask 8 q, bit_or_low 8 (q / 2 ^ 8) (q % 2 ^ 8) (omega arith)) (omega arith)

next_byte :
    (p q : ℕ) (bs : List ℕ)
    → q < 2 ^ 64
    → p ≡ q / 2 ^ 8
    → read_extended p (bit_and q 0xFF ∷ bs) ≡ read_extended q bs
unfolding read_extended
next_byte p q bs h e = ap (λ (x : ℕ). read_extended x bs) (rw e (one_byte q h))

pub read_extended-two : (n : ℕ) → n < 2 ^ 16 → read_extended 0 (extended_bytes 2 n) ≡ n
unfolding extended_bytes
read_extended-two n h =
    next_byte 0 (n / 2 ^ 8) _ (omega arith) (omega arith)
    ∙ next_byte (n / 2 ^ 8) (n / 2 ^ 0) _ (omega arith) (omega arith)
    ∙ unfold read_extended in omega arith

pub read_extended-eight : (n : ℕ) → n < 2 ^ 64 → read_extended 0 (extended_bytes 8 n) ≡ n
unfolding extended_bytes
read_extended-eight n h =
    next_byte 0 (n / 2 ^ 56) _ (omega arith) (omega arith)
    ∙ next_byte (n / 2 ^ 56) (n / 2 ^ 48) _ (omega arith) (omega arith)
    ∙ next_byte (n / 2 ^ 48) (n / 2 ^ 40) _ (omega arith) (omega arith)
    ∙ next_byte (n / 2 ^ 40) (n / 2 ^ 32) _ (omega arith) (omega arith)
    ∙ next_byte (n / 2 ^ 32) (n / 2 ^ 24) _ (omega arith) (omega arith)
    ∙ next_byte (n / 2 ^ 24) (n / 2 ^ 16) _ (omega arith) (omega arith)
    ∙ next_byte (n / 2 ^ 16) (n / 2 ^ 8) _ (omega arith) (omega arith)
    ∙ next_byte (n / 2 ^ 8) (n / 2 ^ 0) _ (omega arith) (omega arith)
    ∙ unfold read_extended in omega arith

-- The first byte of a frame.
abbrev pub first_byte : Bool → ℕ → ℕ
first_byte is_fin opcode = bit_or (if is_fin then 0x80 else 0) (bit_and opcode 0x0F)

-- What the receiver reads off it.
pub record HasFirst (is_fin : Bool) (opcode : ℕ) : Type 0 where
  pub fin : not (bit_and (first_byte is_fin opcode) 0x80 == 0) ≡ is_fin
  pub reserved : (bit_and (first_byte is_fin opcode) 0x70 == 0) ≡ true
  pub same : bit_and (first_byte is_fin opcode) 0x0F ≡ opcode

opcode_cases :
    (opcode : ℕ)
    → is_opcode opcode ≡ true
    → (opcode ≡ 0)
      ⊎ ((opcode ≡ 1) ⊎ ((opcode ≡ 2) ⊎ ((opcode ≡ 8) ⊎ ((opcode ≡ 9) ⊎ (opcode ≡ 10)))))
opcode_cases opcode h = ground (arith, h)

abbrev IsRead : ℕ → Type 0
IsRead opcode = HasFirst true opcode × HasFirst false opcode

of_both : (opcode : ℕ) → IsRead opcode → (is_fin : Bool) → HasFirst is_fin opcode
of_both opcode both true = both.0
of_both opcode both false = both.1

pub first_byte-HasFirst :
    (is_fin : Bool) (opcode : ℕ) → is_opcode opcode ≡ true → HasFirst is_fin opcode
first_byte-HasFirst is_fin opcode h = elim (opcode_cases opcode h) [
  | inl e ↦ rw e (
      of_both 0
        (
          record { fin = refl; reserved = refl; same = refl },
          record { fin = refl; reserved = refl; same = refl },
        )
        is_fin)
  | inr (inl e) ↦ rw e (
      of_both 1
        (
          record { fin = refl; reserved = refl; same = refl },
          record { fin = refl; reserved = refl; same = refl },
        )
        is_fin)
  | inr (inr (inl e)) ↦ rw e (
      of_both 2
        (
          record { fin = refl; reserved = refl; same = refl },
          record { fin = refl; reserved = refl; same = refl },
        )
        is_fin)
  | inr (inr (inr (inl e))) ↦ rw e (
      of_both 8
        (
          record { fin = refl; reserved = refl; same = refl },
          record { fin = refl; reserved = refl; same = refl },
        )
        is_fin)
  | inr (inr (inr (inr (inl e)))) ↦ rw e (
      of_both 9
        (
          record { fin = refl; reserved = refl; same = refl },
          record { fin = refl; reserved = refl; same = refl },
        )
        is_fin)
  | inr (inr (inr (inr (inr e)))) ↦ rw e (
      of_both 10
        (
          record { fin = refl; reserved = refl; same = refl },
          record { fin = refl; reserved = refl; same = refl },
        )
        is_fin)
]

-- The low seven bits and the mask bit of the second byte.
pub second-masked :
    (low : ℕ)
    → low < 128
    → (bit_and (bit_or 0x80 low) 0x7f ≡ low) × ((bit_and (bit_or 0x80 low) 0x80 == 0) ≡ false)
second-masked low h =
    let e : bit_or 0x80 low ≡ 128 + low = bit_or_low 7 1 low h in
    rw e (bit_and_mask 7 (128 + low) ∙ omega arith, ground (arith, bit_and_top (128 + low)))

pub second-plain :
    (low : ℕ)
    → low < 128
    → (bit_and (bit_or 0 low) 0x7f ≡ low) × ((bit_and (bit_or 0 low) 0x80 == 0) ≡ true)
second-plain low h =
    let e : bit_or 0 low ≡ low = omega (arith, bit_or_low 7 0 low h) in
    rw e (bit_and_mask 7 low ∙ omega arith, ground (arith, bit_and_top low))

-- What the length of a payload is written as, and read as.
pub record HasLength (len : ℕ) : Type 0 where
  pub seven_bits : length_byte len < 128
  pub same_n : extended_n (length_byte len) ≡ payload_n len
  pub extension : length (extended_bytes (payload_n len) len) ≡ payload_n len
  pub value :
      (if payload_n len == 0
        then length_byte len
        else read_extended 0 (extended_bytes (payload_n len) len))
      ≡ len
  pub short : payload_n len ≤ 8

length-extended_bytes : (n len : ℕ) → length (extended_bytes n len) ≡ n
unfolding extended_bytes
length-extended_bytes zero len = refl
length-extended_bytes (suc n) len = ap suc (length-extended_bytes n len)

pub length-HasLength : (len : ℕ) → len < 2 ^ 64 → HasLength len
unfolding payload_n extended_n length_byte
length-HasLength len small = record {
  seven_bits = ground arith;
  same_n = ground arith;
  extension = length-extended_bytes (payload_n len) len;
  value = ground (arith, read_extended-two len, read_extended-eight len small);
  short = ground arith;
}
