-- ===== src/WebSocket/Read.antt =====
-- `ws_read_frame_length` and `ws_read_frame`.
use ios_webkit_debug_proxy.Prelude.{
  ℕ, ◌+◌, ◌%◌, ◌-◌, ◌^◌, bit_and, Bool, not, ◌&&◌, ◌||◌, Option, some, none, List, length, get_or,
  take, drop, ltb, ◌==◌, if◌then◌else◌,
}
use ios_webkit_debug_proxy.Prelude.Status.{Status, success, error}
use ios_webkit_debug_proxy.CharBuffer.{ensure_capacity, append}
use ios_webkit_debug_proxy.WebSocket.{
  Utf8, WebSocket, is_opcode, is_control, validate, extended_n, read_extended, apply_mask,
}

module _ {W : Type 0} where
  -- The checks on the first byte, and the check that a control frame is short.
  unfoldable pub is_refused : WebSocket W → ℕ → ℕ → Bool
  is_refused my first second =
      let is_fin = not (bit_and first 0x80 == 0) in
      let opcode = bit_and first 0x0F in
      let out_of_row =
        if opcode == 0
        then my.continued_opcode == 0
        else not (is_control opcode) && not (my.continued_opcode == 0) in
      not (bit_and first 0x70 == 0)
      || (not (is_opcode opcode)
          || ((is_control opcode && not is_fin)
              || (out_of_row || (is_control opcode && ltb 125 (bit_and second 0x7f)))))

  -- `u` is what stands between `in_head` and `in_tail`; nothing of it is consumed.
  unfoldable pub read_frame_length : WebSocket W → List ℕ → Status × WebSocket W
  unfolding is_refused extended_n read_extended
  read_frame_length my u =
      let first = get_or u 0 0 in
      let second = get_or u 1 0 in
      let none_yet : WebSocket W = record my { needed_length = 0; frame_length = 0 } in
      let low = bit_and second 0x7f in
      let n = extended_n low in
      let payload_length = if n == 0 then low else read_extended 0 (take n (drop 2 u)) in
      let mask_n = if bit_and second 0x80 == 0 then 0 else 4 in
      if ltb (length u) 2
      then (success, record none_yet { needed_length = 2 })
      else (if is_refused my first second
          then (error, none_yet)
          else (if ltb (length u) (2 + n)
              then (success, record none_yet { needed_length = 2 + n })
              else (
                success,
                record none_yet { frame_length = (2 + n + mask_n + payload_length) % 2 ^ 64 },
              )))

abbrev pub is_zero_mask : List ℕ → Bool
is_zero_mask mask =
    get_or mask 0 0 == 0 && (get_or mask 1 0 == 0 && (get_or mask 2 0 == 0 && get_or mask 3 0 == 0))

-- What `ws_read_frame` writes through its pointers.
pub record Frame : Type 0 where
  pub is_fin : Bool
  pub opcode : ℕ
  pub is_masking : Bool

-- The status, the frame, what is left of the input, and the new state.
abbrev pub ReadFrame : Type 0 → Type 0
ReadFrame W = Option (Status × Option Frame × List ℕ × WebSocket W)

module _ {W : Type 0} (alloc : ℕ → Bool) (utf8 : Utf8) where
  -- From `cb_ensure_capacity` on, with the bytes behind the mask. A mask of zeros is none.
  unfoldable pub read_payload : WebSocket W → Frame → List ℕ → ℕ → List ℕ → List ℕ → ReadFrame W
  unfolding apply_mask
  read_payload my frame mask payload_length rest u =
      let bytes = take payload_length rest in
      let payload = if frame.is_masking then apply_mask mask 0 bytes else bytes in
      let (s, c) = ensure_capacity alloc my.data_buffer payload_length in
      let left = drop payload_length rest in
      let is_valid = not (frame.opcode == 1) || validate utf8 utf8.valid payload in
      let done : ReadFrame W = elim (append c payload) [
        | none ↦ none
        | some d ↦
            if is_valid
            then some (success, some frame, left, record my { data_buffer = d })
            else some (error, none, left, record my { data_buffer = c })
      ] in
      elim s [
        | error ↦ some (error, none, u, record my { data_buffer = c })
        | success ↦ if ltb (length rest) payload_length then none else done
      ]

  unfoldable pub read_frame : WebSocket W → List ℕ → ReadFrame W
  unfolding read_payload extended_n
  read_frame my u =
      let first = get_or u 0 0 in
      let second = get_or u 1 0 in
      let opcode = bit_and first 0x0F in
      let has_mask = not (bit_and second 0x80 == 0) in
      let low = bit_and second 0x7f in
      let n = extended_n low in
      let mask_n = if has_mask then 4 else 0 in
      let payload_length =
        if n == 0 then low else (my.frame_length + (2 ^ 64 - (2 + mask_n + n))) % 2 ^ 64 in
      let mask = take mask_n (drop (2 + n) u) in
      let frame : Frame = record {
        is_fin = not (bit_and first 0x80 == 0);
        opcode = if opcode == 0 then my.continued_opcode else opcode;
        is_masking = has_mask && not (is_zero_mask mask);
      } in
      let read = read_payload my frame mask payload_length (drop (2 + n + mask_n) u) u in
      if not (my.needed_length == 0) || (my.frame_length == 0 || ltb (length u) my.frame_length)
      then some (error, none, u, my)
      else (if ltb (length u) (2 + n + mask_n) then none else read)
