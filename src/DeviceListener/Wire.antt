-- ===== src/DeviceListener/Wire.antt =====
-- The numbers of a packet's header: `dl_sprintf_uint32` and `dl_sscanf_uint32`.
pub mod Laws
use ios_webkit_debug_proxy.Prelude.{
  ℕ, zero, suc, ◌+◌, ◌*◌, ◌/◌, ◌%◌, ◌^◌, bit_and, bit_or, List, [], ◌∷◌, ◌++◌, get_or,
}

-- The four bytes written, of which `buf` then has that many more.
unfoldable pub sprintf_uint32 : ℕ → List ℕ
sprintf_uint32 value =
    bit_and (value / 2 ^ 0) 0xFF
    ∷ bit_and (value / 2 ^ 8) 0xFF
    ∷ bit_and (value / 2 ^ 16) 0xFF
    ∷ bit_and (value / 2 ^ 24) 0xFF
    ∷ []

-- `buf` holds at least four bytes. A round of the loop is one `bit_or`.
unfoldable pub sscanf_uint32 : List ℕ → ℕ
sscanf_uint32 buf =
    let byte = λ (i : ℕ). bit_and (get_or buf i 0) 0xFF * 2 ^ (i * 8) in
    bit_or (bit_or (bit_or (bit_or 0 (byte 0)) (byte 1)) (byte 2)) (byte 3)
