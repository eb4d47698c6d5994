-- ===== src/WebSocket/Closing.antt =====
-- What `ws_send_frame` hands to the transport, and that a close frame is the last one.
use ios_webkit_debug_proxy.Prelude.{
  ℕ, ◌≡◌, ◌≢◌, refl, Bool, true, Option, some, none, List, arith, inl, inr, Bool-cases,
}
use ios_webkit_debug_proxy.Prelude.Status.{Status, success, error}
use ios_webkit_debug_proxy.WebSocket.{Utf8, WebSocket}
use ios_webkit_debug_proxy.WebSocket.Send.{may_send, write_frame, send_frame}

module _ {W : Type 0} (alloc : ℕ → Bool) (utf8 : Utf8) (send_data : W → List ℕ → Status × W) where
  closed_send :
      (my : WebSocket W) (is_fin : Bool) (opcode : ℕ) (mask payload : Option (List ℕ))
      → my.sent_close ≡ true
      → send_frame alloc utf8 send_data my is_fin opcode mask payload ≡ some (error, my)
  unfolding send_frame may_send
  closed_send my is_fin opcode mask none closed = refl
  closed_send my is_fin opcode mask (some payload) closed = rw closed

  close_written :
      (my my' : WebSocket W) (is_fin : Bool) (mask : Option (List ℕ)) (payload : List ℕ)
      → write_frame alloc utf8 send_data my is_fin 8 mask payload ≡ some (success, my')
      → my'.sent_close ≡ true
  unfolding write_frame
  close_written my my' is_fin mask payload sent = ground (arith, sent)

  -- Once `ws_send_frame` has sent a close frame with success, it refuses every further frame and
  -- leaves the state as it is.
  pub send_frame-after_close :
      (my my' : WebSocket W) (is_fin is_fin' : Bool) (opcode : ℕ)
      (mask mask' payload payload' : Option (List ℕ))
      → send_frame alloc utf8 send_data my is_fin 8 mask payload ≡ some (success, my')
      → send_frame alloc utf8 send_data my' is_fin' opcode mask' payload' ≡ some (error, my')
  unfolding send_frame
  send_frame-after_close my my' is_fin is_fin' opcode mask mask' none payload' sent = cc sent
  send_frame-after_close my my' is_fin is_fin' opcode mask mask' (some payload) payload' sent =
      elim (Bool-cases (may_send alloc utf8 send_data my is_fin 8 payload)) [
        | inl y ↦
            closed_send my' is_fin' opcode mask' payload'
              (close_written my my' is_fin mask payload (rw y at sent))
        | inr n ↦ cc (rw n at sent)
      ]

  continued_written :
      (my my' : WebSocket W) (is_fin : Bool) (opcode : ℕ) (mask : Option (List ℕ))
      (payload : List ℕ) (s : Status)
      → my.continued_opcode ≢ 0
      → write_frame alloc utf8 send_data my is_fin opcode mask payload ≡ some (s, my')
      → my'.continued_opcode ≡ my.continued_opcode
  unfolding write_frame
  continued_written my my' is_fin opcode mask payload s goes_on sent = ground (arith, sent, goes_on)

  -- Once a message goes on, `ws_send_frame` never ends it: whatever it returns for whatever frame, a
  -- final one included, the opcode that is continued stays as it is.
  pub send_frame-keeps_row :
      (my my' : WebSocket W) (is_fin : Bool) (opcode : ℕ) (mask payload : Option (List ℕ))
      (s : Status)
      → my.continued_opcode ≢ 0
      → send_frame alloc utf8 send_data my is_fin opcode mask payload ≡ some (s, my')
      → my'.continued_opcode ≡ my.continued_opcode
  unfolding send_frame
  send_frame-keeps_row my my' is_fin opcode mask none s goes_on sent = ground (arith, sent)
  send_frame-keeps_row my my' is_fin opcode mask (some payload) s goes_on sent =
      elim (Bool-cases (may_send alloc utf8 send_data my is_fin opcode payload)) [
        | inl y ↦ continued_written my my' is_fin opcode mask payload s goes_on (rw y at sent)
        | inr n ↦ ground (arith, rw n at sent)
      ]
