-- ===== src/WebSocket.antt =====
-- src/websocket.c: frames of the WebSocket protocol, written by `ws_send_frame` and read by
-- `ws_read_frame_length` and `ws_read_frame`.
--
-- The table of src/include/validate_utf8.h, a copy of another project's, is a parameter, as is the
-- random mask that `ws_random_buf` makes. A byte is its eight bits, whether C has it in a `char` or in
-- an `unsigned char`. `none` is a read or a write outside a block.
pub mod Frame
pub mod Send
pub mod Read
pub mod Received
pub mod Stored
pub mod Payload
pub mod Closing
pub mod Sent
pub mod Http
use ios_webkit_debug_proxy.Prelude.{
  ℕ, zero, suc, ◌+◌, ◌*◌, ◌/◌, ◌%◌, ◌^◌, bit_and, bit_or, bit_xor, Bool, true, false, not, ◌&&◌,
  ◌||◌, Option, some, none, List, [], ◌∷◌, ◌++◌, length, get_or, ltb, leb, ◌==◌, if◌then◌else◌,
}
use ios_webkit_debug_proxy.CharBuffer.{CharBuffer}

-- `validate_utf8`, `UTF8_VALID` and `UTF8_INVALID`.
pub record Utf8 : Type 0 where
  pub next : ℕ → ℕ
  pub valid : ℕ
  pub invalid : ℕ

-- The fields of `struct ws_private` that frames use (`data_buffer` is its `data`), and what the
-- callbacks act on.
pub record WebSocket (W : Type 0) : Type 0 where
  pub continued_opcode : ℕ
  pub sent_close : Bool
  pub needed_length : ℕ
  pub frame_length : ℕ
  pub out : CharBuffer
  pub data_buffer : CharBuffer
  pub world : W

-- CONTINUATION, TEXT, BINARY, CLOSE, PING and PONG.
abbrev pub is_opcode : ℕ → Bool
is_opcode opcode =
    opcode == 0 || (opcode == 1 || (opcode == 2 || (opcode == 8 || (opcode == 9 || opcode == 10))))

abbrev pub is_control : ℕ → Bool
is_control opcode = leb 8 opcode

-- The loop over the bytes of a text.
unfoldable pub validate : Utf8 → ℕ → List ℕ → Bool
validate utf8 state [] = true
validate utf8 state (ch ∷ text) =
    let state' = utf8.next (state + ch) in
    let rest = validate utf8 state' text in if state' == utf8.invalid then false else rest

-- The bytes xor the four of the mask in turn; `mask_offset` is a `uint32_t`.
unfoldable pub apply_mask : List ℕ → ℕ → List ℕ → List ℕ
apply_mask mask mask_offset [] = []
apply_mask mask mask_offset (ch ∷ text) =
    bit_xor ch (get_or mask (bit_and mask_offset 3) 0)
    ∷ apply_mask mask ((mask_offset + 1) % 2 ^ 32) text

-- The number of bytes that extend the length, as the sender chooses it.
unfoldable pub payload_n : ℕ → ℕ
payload_n payload_length =
    if ltb payload_length 126 then 0 else (if ltb payload_length 65535 then 2 else 8)

-- The low seven bits of the second byte.
unfoldable pub length_byte : ℕ → ℕ
unfolding payload_n
length_byte payload_length =
    if payload_n payload_length == 0
    then payload_length
    else (if payload_n payload_length == 2 then 126 else 127)

-- The same, as the receiver reads it off the low seven bits of the second byte.
unfoldable pub extended_n : ℕ → ℕ
extended_n low = if ltb low 126 then 0 else (if ltb low 127 then 2 else 8)

-- `n` bytes of a number, most significant first.
unfoldable pub extended_bytes : ℕ → ℕ → List ℕ
extended_bytes zero payload_length = []
extended_bytes (suc j) payload_length =
    bit_and (payload_length / 2 ^ (j * 8)) 0xFF ∷ extended_bytes j payload_length

unfoldable pub read_extended : ℕ → List ℕ → ℕ
read_extended payload_length [] = payload_length
read_extended payload_length (b ∷ bs) =
    read_extended (bit_or (payload_length * 2 ^ 8 % 2 ^ 64) b) bs

-- The bytes of a frame; the mask is `some` for a frame that is masked.
unfoldable pub frame_bytes : Bool → ℕ → Option (List ℕ) → List ℕ → List ℕ
unfolding payload_n length_byte extended_bytes apply_mask
frame_bytes is_fin opcode2 mask payload =
    let n = payload_n (length payload) in
    let low = length_byte (length payload) in
    let first = bit_or (if is_fin then 0x80 else 0) (bit_and opcode2 0x0F) in
    let extended = extended_bytes n (length payload) in
    elim mask [
      | none ↦ first ∷ bit_or 0 low ∷ (extended ++ payload)
      | some m ↦ first ∷ bit_or 0x80 low ∷ (extended ++ (m ++ apply_mask m 0 payload))
    ]
