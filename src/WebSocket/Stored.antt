-- ===== src/WebSocket/Stored.antt =====
-- The payload of a frame is kept in `my->data`: the end of `ws_read_frame`.
use ios_webkit_debug_proxy.Prelude.{
  ℕ, ◌+◌, ◌<◌, ◌≡◌, ap, Bool, true, false, not, ◌||◌, some, List, ◌++◌, length, ltb, leb, ◌==◌,
  if◌then◌else◌, arith, inl, inr, Bool-cases, length-append, ==_iff,
}
use ios_webkit_debug_proxy.Prelude.Status.{success}
use ios_webkit_debug_proxy.CharBuffer.{CharBuffer, size_mod, ensure_capacity, append}
use ios_webkit_debug_proxy.CharBuffer.Capacity.{
  IsValid, ensure_capacity-HasRoom, ensure_capacity-total,
}
use ios_webkit_debug_proxy.WebSocket.{Utf8, WebSocket, validate, apply_mask}
use ios_webkit_debug_proxy.WebSocket.Read.{Frame, read_payload}
use ios_webkit_debug_proxy.WebSocket.Received.{first_part, last_part}

-- The payload is written behind what the buffer holds.
pub record HasPayload (c : CharBuffer) (payload : List ℕ) (d : CharBuffer) : Type 0 where
  pub valid : IsValid d
  pub live : d.live ≡ c.live ++ payload

module _ {W : Type 0} (alloc : ℕ → Bool) (all : (n : ℕ) → alloc n ≡ true) (utf8 : Utf8)
    (my : WebSocket W) (payload : List ℕ) (valid : IsValid my.data_buffer)
    (room : length my.data_buffer.live + length payload < size_mod) where
  stored :
      (d : CharBuffer) × ((ensure_capacity alloc my.data_buffer (length payload)).0 ≡ success)
      × (append (ensure_capacity alloc my.data_buffer (length payload)).1 payload ≡ some d)
      × HasPayload my.data_buffer payload d
  unfolding append
  stored =
      let c = (ensure_capacity alloc my.data_buffer (length payload)).1 in
      let ok = ensure_capacity-total alloc my.data_buffer (length payload) all in
      let h = ensure_capacity-HasRoom alloc my.data_buffer (length payload) valid room ok in
      let fits : leb (c.tail + length payload) c.end ≡ true = ground (arith, h.room) in
      (
        record c { tail = c.tail + length payload; live = c.live ++ payload },
        ok,
        rw fits,
        record {
          valid = record {
            head_le = omega (arith, h.valid.head_le);
            tail_le = h.room;
            counted = omega (arith, h.valid.counted, length-append c.live payload);
            empty = λ e. cc (e, h.block);
          };
          live = ap (λ (t : List ℕ). t ++ payload) h.same_live;
        },
      )

  pub read_payload_lem :
      (frame : Frame) (mask bytes more u : List ℕ)
      → (if frame.is_masking then apply_mask mask 0 bytes else bytes) ≡ payload
      → length bytes ≡ length payload
      → (frame.opcode ≡ 1 → validate utf8 utf8.valid payload ≡ true)
      → (d : CharBuffer) × (read_payload alloc utf8 my frame mask (length payload) (bytes ++ more) u
          ≡ some (success, some frame, more, record my { data_buffer = d }))
        × HasPayload my.data_buffer payload d
  unfolding read_payload
  read_payload_lem frame mask bytes more u plain size text =
      let (d, ensured, appended, has) = stored in
      let head = first_part bytes more (length payload) size in
      let tail = last_part bytes more (length payload) size in
      let long : ltb (length (bytes ++ more)) (length payload) ≡ false =
        ground (arith, length-append bytes more, size) in
      let ok : (not (frame.opcode == 1) || validate utf8 utf8.valid payload) ≡ true =
        elim (Bool-cases (frame.opcode == 1)) [
          | inl y ↦ rw (y, text ((==_iff frame.opcode 1).0 y))
          | inr n ↦ rw n
        ] in
      (d, rw (ensured, read_payload, long, head, plain, appended, head, plain, ok, tail), has)
