-- ===== src/WebSocket/Send.antt =====
-- `ws_send_frame` and `ws_send_close`.
use ios_webkit_debug_proxy.Prelude.{
  ℕ, ◌+◌, ◌/◌, ◌%◌, ◌^◌, bit_and, Bool, true, not, ◌&&◌, ◌||◌, Option, some, none, List, [], ◌∷◌,
  length, ltb, ◌==◌, if◌then◌else◌,
}
use ios_webkit_debug_proxy.Prelude.Status.{Status, success, error}
use ios_webkit_debug_proxy.CharBuffer.{ensure_capacity, append, clear}
use ios_webkit_debug_proxy.WebSocket.{
  Utf8, WebSocket, is_opcode, is_control, validate, payload_n, frame_bytes,
}

-- `send_data` is the function pointer of `struct ws_struct`.
module _ {W : Type 0} (alloc : ℕ → Bool) (utf8 : Utf8) (send_data : W → List ℕ → Status × W) where
  -- What is sent for an opcode: a part of a message that goes on is a continuation.
  unfoldable pub opcode_sent : WebSocket W → ℕ → ℕ
  opcode_sent my opcode =
      if not (is_control opcode) && not (my.continued_opcode == 0) then 0 else opcode

  -- The checks in front of the first write.
  unfoldable pub may_send : WebSocket W → Bool → ℕ → List ℕ → Bool
  unfolding opcode_sent
  may_send my is_fin opcode payload =
      let in_row =
        is_control opcode || (my.continued_opcode == 0 || my.continued_opcode == opcode) in
      let is_text = opcode_sent my opcode == 1 in
      not my.sent_close
      && (is_opcode opcode
          && ((not (is_control opcode) || (is_fin && not (ltb 125 (length payload))))
              && (in_row && (not is_text || validate utf8 utf8.valid payload))))

  -- From `cb_clear` on.
  unfoldable pub write_frame :
      WebSocket W → Bool → ℕ → Option (List ℕ) → List ℕ → Option (Status × WebSocket W)
  unfolding opcode_sent
  write_frame my is_fin opcode mask payload =
      let mask_n : ℕ = elim mask [ none ↦ 0 | some m ↦ 4 ] in
      let needed = (2 + payload_n (length payload) + mask_n + length payload) % 2 ^ 64 in
      let (s, c) = ensure_capacity alloc (clear my.out) needed in
      let bytes = frame_bytes is_fin (opcode_sent my opcode) mask payload in
      let continued =
        if not is_fin && my.continued_opcode == 0 then opcode else my.continued_opcode in
      elim s [
        | error ↦ some (error, record my { out = c })
        | success ↦ elim (append c bytes) [
          | none ↦ none
          | some d ↦
              let (ret, w) = send_data my.world bytes in
              let closed : Bool = elim ret [
                | error ↦ my.sent_close
                | success ↦ opcode == 8 || my.sent_close
              ] in
              some (
                ret,
                record my { out = d; continued_opcode = continued; sent_close = closed; world = w },
              )
        ]
      ]

  -- No payload is a NULL pointer.
  unfoldable pub send_frame :
      WebSocket W → Bool → ℕ → Option (List ℕ) → Option (List ℕ) → Option (Status × WebSocket W)
  unfolding may_send write_frame
  send_frame my is_fin opcode mask none = some (error, my)
  send_frame my is_fin opcode mask (some payload) =
      if may_send my is_fin opcode payload
      then write_frame my is_fin opcode mask payload
      else some (error, my)

  -- The reason is the bytes before its NUL, or none for NULL.
  unfoldable pub send_close : WebSocket W → ℕ → Option (List ℕ) → Option (Status × WebSocket W)
  unfolding send_frame
  send_close my close_code reason =
      let text : List ℕ = elim reason [ none ↦ [] | some r ↦ r ] in
      let close_data = bit_and (close_code / 2 ^ 8) 0xFF ∷ bit_and close_code 0xFF ∷ text in
      if alloc ((length close_data + 1) % 2 ^ 64)
      then send_frame my true 8 none (some close_data)
      else some (error, my)
