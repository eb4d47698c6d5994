-- ===== src/WebInspector/Packet.antt =====
-- The packet layer: `wi_send` and `wi_parse_length`.
pub mod Laws
use ios_webkit_debug_proxy.Prelude.{
  ℕ, ◌+◌, ◌-◌, ◌*◌, ◌/◌, ◌^◌, bit_and, bit_or, Bool, List, [], ◌∷◌, ◌++◌, length, get_or, ltb,
  if◌then◌else◌,
}
use ios_webkit_debug_proxy.Prelude.Status.{Status, success, error}

-- `MAX_BODY_LENGTH`
abbrev pub max_body_length : ℕ
max_body_length = 2 ^ 26

-- The four bytes that `wi_send` writes in front of `data_len` bytes.
unfoldable pub length_bytes : ℕ → List ℕ
length_bytes data_len =
    bit_and (data_len / 2 ^ 24) 0xFF
    ∷ bit_and (data_len / 2 ^ 16) 0xFF
    ∷ bit_and (data_len / 2 ^ 8) 0xFF
    ∷ bit_and data_len 0xFF
    ∷ []

-- `send_packet` is the transport. No data is a NULL pointer and the length 0.
unfoldable pub send :
    {W : Type 0} → (ℕ → Bool) → (W → List ℕ → Status × W) → W → List ℕ → Status × W
send alloc send_packet w payload =
    if alloc (length payload + 4)
    then send_packet w (length_bytes (length payload) ++ payload)
    else (error, w)

-- The expression of `wi_parse_length` has type `int`; its conversion to `size_t` extends the sign.
unfoldable pub size_of_int : ℕ → ℕ
size_of_int n = if ltb n (2 ^ 31) then n else n + (2 ^ 64 - 2 ^ 32)

-- `buf` holds at least four bytes. The status, and what is written through `to_length`.
unfoldable pub parse_length : List ℕ → Status × ℕ
unfolding size_of_int
parse_length buf =
    let byte = λ (i : ℕ). bit_and (get_or buf i 0) 0xFF in
    let to_length =
      size_of_int
        (bit_or (bit_or (bit_or (byte 0 * 2 ^ 24) (byte 1 * 2 ^ 16)) (byte 2 * 2 ^ 8)) (byte 3)) in
    if ltb max_body_length to_length then (error, to_length) else (success, to_length)
