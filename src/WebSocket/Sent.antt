-- ===== src/WebSocket/Sent.antt =====
-- What `ws_send_frame` hands to the transport.
use ios_webkit_debug_proxy.Prelude.{
  ℕ, ◌+◌, ◌%◌, ◌^◌, ◌≤◌, ◌<◌, ◌≡◌, ◌≢◌, ◌⊎◌, inl, inr, refl, Bool, true, not, ◌&&◌, ◌||◌, Option,
  some, none, List, ◌++◌, length, leb, leb→le, ◌==◌, if◌then◌else◌, arith, Bool-cases,
}
use ios_webkit_debug_proxy.Prelude.Status.{Status, success, error}
use ios_webkit_debug_proxy.CharBuffer.{CharBuffer, size_mod, ensure_capacity, append, clear}
use ios_webkit_debug_proxy.CharBuffer.Capacity.{
  IsValid, ensure_capacity-HasRoom, ensure_capacity-total,
}
use ios_webkit_debug_proxy.WebSocket.{Utf8, WebSocket, payload_n, frame_bytes}
use ios_webkit_debug_proxy.WebSocket.Frame.{length-HasLength}
use ios_webkit_debug_proxy.WebSocket.Received.{IsMask, is_masked, length-frame_bytes}
use ios_webkit_debug_proxy.WebSocket.Send.{may_send, write_frame, send_frame, opcode_sent}

clear-IsValid : (c : CharBuffer) → IsValid c → IsValid (clear c)
unfolding clear
clear-IsValid c valid = record {
  head_le = omega arith;
  tail_le = omega arith;
  counted = refl;
  empty = valid.empty;
}

mask_length :
    (mask : Option (List ℕ))
    → ◌≡◌ {A = ℕ} (elim mask [ none ↦ 0 | some m ↦ 4 ]) (if is_masked mask then 4 else 0)
mask_length none = refl
mask_length (some m) = refl

module _ {W : Type 0} (alloc : ℕ → Bool) (all : (n : ℕ) → alloc n ≡ true) (utf8 : Utf8)
    (send_data : W → List ℕ → Status × W) where
  appended :
      (c : CharBuffer) (bytes : List ℕ)
      → IsValid c
      → length bytes < size_mod
      → (d : CharBuffer) × ((ensure_capacity alloc (clear c) (length bytes)).0 ≡ success)
        × (append (ensure_capacity alloc (clear c) (length bytes)).1 bytes ≡ some d)
  unfolding append
  appended c bytes valid small =
      let ok = ensure_capacity-total alloc (clear c) (length bytes) all in
      let h =
        ensure_capacity-HasRoom alloc (clear c) (length bytes) (clear-IsValid c valid)
          (unfold clear in omega arith) ok in
      let d = (ensure_capacity alloc (clear c) (length bytes)).1 in
      let fits : leb (d.tail + length bytes) d.end ≡ true = ground (arith, h.room) in
      (record d { tail = d.tail + length bytes; live = d.live ++ bytes }, ok, rw fits)

  written :
      (my : WebSocket W) (is_fin : Bool) (opcode : ℕ) (mask : Option (List ℕ)) (payload : List ℕ)
      (d : CharBuffer)
      → let bytes = frame_bytes is_fin (opcode_sent alloc utf8 send_data my opcode) mask payload in
        let (ret, w) = send_data my.world bytes in
        let closed : Bool = elim ret [
          | error ↦ my.sent_close
          | success ↦ opcode == 8 || my.sent_close
        ] in
        let continued =
          if not is_fin && my.continued_opcode == 0 then opcode else my.continued_opcode in
        ((2 + payload_n (length payload) + (if is_masked mask then 4 else 0) + length payload)
            % 2 ^ 64
          ≡ length bytes)
        → (ensure_capacity alloc (clear my.out) (length bytes)).0 ≡ success
        → append (ensure_capacity alloc (clear my.out) (length bytes)).1 bytes ≡ some d
        → write_frame alloc utf8 send_data my is_fin opcode mask payload
          ≡ some (
            ret,
            record my { out = d; continued_opcode = continued; sent_close = closed; world = w },
          )
  unfolding write_frame
  written my is_fin opcode mask payload d needed ok wrote =
      rw (mask_length mask, needed, ok, write_frame, mask_length mask, needed, wrote)

  -- A part of a message that goes on is a continuation (0); a control frame and any other frame keep
  -- their opcode.
  pub data IsOpcode (my : WebSocket W) (opcode : ℕ) : ℕ → Type 0 where
    continues : opcode < 8 → my.continued_opcode ≢ 0 → IsOpcode my opcode 0
    as_asked : (8 ≤ opcode) ⊎ (my.continued_opcode ≡ 0) → IsOpcode my opcode opcode

  opcode_sent-IsOpcode :
      (my : WebSocket W) (opcode : ℕ)
      → IsOpcode my opcode (opcode_sent alloc utf8 send_data my opcode)
  unfolding opcode_sent
  opcode_sent-IsOpcode my opcode = elim (Bool-cases (leb 8 opcode)) [
    | inl y ↦ rw y (as_asked (inl (leb→le 8 opcode y)))
    | inr n ↦ elim (Bool-cases (my.continued_opcode == 0)) [
      | inl z ↦ rw (n, z) (as_asked (inr (ground (arith, z))))
      | inr z ↦ rw (n, z) (continues (ground (arith, n)) (λ e. absurd (ground (arith, z, e))))
    ]
  ]

  -- A frame that passes the checks is handed to the transport, once and as the bytes of the frame,
  -- with the continuation opcode for a part of a message that goes on, and its own opcode for any
  -- other; no byte is written outside the buffer, and the status is the transport's. The buffer is
  -- valid, a mask has four bytes, the payload is shorter than 2 ^ 63, and memory is not exhausted.
  pub send_frame-frame_bytes :
      (my : WebSocket W) (is_fin : Bool) (opcode : ℕ) (mask : Option (List ℕ)) (payload : List ℕ)
      → may_send alloc utf8 send_data my is_fin opcode payload ≡ true
      → IsValid my.out
      → IsMask mask
      → length payload < 2 ^ 63
      → let bytes = frame_bytes is_fin (opcode_sent alloc utf8 send_data my opcode) mask payload in
        let (ret, w) = send_data my.world bytes in
        (my' : WebSocket W) × (send_frame alloc utf8 send_data my is_fin opcode mask (some payload)
          ≡ some (ret, my'))
        × (my'.world ≡ w)
        × IsOpcode my opcode (opcode_sent alloc utf8 send_data my opcode)
  unfolding send_frame
  send_frame-frame_bytes my is_fin opcode mask payload may valid four small =
      let bytes = frame_bytes is_fin (opcode_sent alloc utf8 send_data my opcode) mask payload in
      let size =
        length-frame_bytes is_fin (opcode_sent alloc utf8 send_data my opcode) mask payload four
          small in
      let n : payload_n (length payload) ≤ 8 =
        (length-HasLength (length payload) (omega arith)).short in
      let needed : (2
              + payload_n (length payload)
              + (if is_masked mask then 4 else 0)
              + length payload)
            % 2 ^ 64
          ≡ length bytes =
        ground (arith, size, n) in
      let (d, ok, wrote) = appended my.out bytes valid (ground (arith, size, n)) in
      let (ret, w) = send_data my.world bytes in
      let closed : Bool = elim ret [
        | error ↦ my.sent_close
        | success ↦ opcode == 8 || my.sent_close
      ] in
      let continued =
        if not is_fin && my.continued_opcode == 0 then opcode else my.continued_opcode in
      (
        record my { out = d; continued_opcode = continued; sent_close = closed; world = w },
        rw may (written my is_fin opcode mask payload d needed ok wrote),
        refl,
        opcode_sent-IsOpcode my opcode,
      )
