-- ===== src/WebSocket/Payload.antt =====
-- A frame as `ws_send_frame` writes it, through `ws_read_frame`.
use ios_webkit_debug_proxy.Prelude.{
  ℕ, suc, ◌+◌, ◌%◌, ◌-◌, ◌^◌, ◌≤◌, ◌<◌, ◌≡◌, refl, ap, ◌∙◌, Bool, true, false, not, ◌&&◌, Option,
  some, none, List, ◌∷◌, ◌++◌, length, drop, ltb, ◌==◌, if◌then◌else◌, arith, length-append,
  append_assoc,
}
use ios_webkit_debug_proxy.Prelude.Status.{success}
use ios_webkit_debug_proxy.CharBuffer.{CharBuffer, size_mod}
use ios_webkit_debug_proxy.CharBuffer.Capacity.{IsValid}
use ios_webkit_debug_proxy.WebSocket.{
  Utf8, WebSocket, is_opcode, validate, extended_bytes, payload_n, length_byte, apply_mask,
  frame_bytes,
}
use ios_webkit_debug_proxy.WebSocket.Frame.{
  first_byte, first_byte-HasFirst, length-HasLength, apply_mask-apply_mask,
}
use ios_webkit_debug_proxy.WebSocket.Read.{is_zero_mask, read_frame, read_payload}
use ios_webkit_debug_proxy.WebSocket.Received.{
  IsAllowed, IsMask, is_masked, mask_bytes, mask_payload, second_byte, first_part, last_part,
  frame_parts, length-frame_bytes, HasSecond, second_byte-HasSecond, length-mask_payload,
  length-mask_bytes,
}
use ios_webkit_debug_proxy.WebSocket.Stored.{HasPayload, read_payload_lem}

drop_two : (n : ℕ) (a b : ℕ) (xs : List ℕ) → drop (2 + n) (a ∷ b ∷ xs) ≡ drop n xs
drop_two n a b xs =
    let e : 2 + n ≡ suc (suc n) = omega arith in ap (λ (k : ℕ). drop k (a ∷ b ∷ xs)) e

drop_three :
    (n k : ℕ) (a b : ℕ) (xs ys zs : List ℕ)
    → length xs ≡ n
    → length ys ≡ k
    → drop (2 + n + k) (a ∷ b ∷ (xs ++ (ys ++ zs))) ≡ zs
drop_three n k a b xs ys zs e f =
    let both : length (xs ++ ys) ≡ n + k = omega (arith, length-append xs ys, e, f) in
    let sum : 2 + n + k ≡ 2 + (n + k) = omega arith in
    rw (sum, drop_two (n + k) a b (xs ++ (ys ++ zs)), ← append_assoc xs ys zs)
      (last_part (xs ++ ys) zs (n + k) both)

-- The receiver's flag for a mask, and the mask undone.
unfoldable pub IsUsable : Option (List ℕ) → Type 0
IsUsable none = Unit
IsUsable (some m) = is_zero_mask m ≡ false

usable_flag :
    (mask : Option (List ℕ))
    → IsUsable mask
    → (is_masked mask && not (is_zero_mask (mask_bytes mask))) ≡ is_masked mask
unfolding IsUsable
usable_flag none usable = refl
usable_flag (some m) usable = rw usable

unmasked :
    (mask : Option (List ℕ)) (payload : List ℕ)
    → IsUsable mask
    → (if is_masked mask && not (is_zero_mask (mask_bytes mask))
        then apply_mask (mask_bytes mask) 0 (mask_payload mask payload)
        else mask_payload mask payload)
      ≡ payload
unfolding IsUsable
unmasked none payload usable = refl
unmasked (some m) payload usable = rw usable (apply_mask-apply_mask m 0 payload)

not_twice : (b : Bool) → not (not b) ≡ b
not_twice true = refl
not_twice false = refl

four_or_none : (b : Bool) → (if b then 4 else 0) ≤ 4
four_or_none true = omega arith
four_or_none false = omega arith

-- The payload's length, from the length of the frame.
rest_length :
    (len k : ℕ)
    → len < 2 ^ 63
    → k ≤ 4
    → (if payload_n len == 0
        then length_byte len
        else (2 + payload_n len + k + len + (2 ^ 64 - (2 + k + payload_n len))) % 2 ^ 64)
      ≡ len
unfolding payload_n length_byte
rest_length len k small four = ground arith

-- The header is read, and what follows it is left for the payload.
read_frame-header :
    {W : Type 0} (alloc : ℕ → Bool) (utf8 : Utf8) (my : WebSocket W) (is_fin : Bool)
    (opcode second len : ℕ) (masked : Bool) (mask rest : List ℕ)
    → is_opcode opcode ≡ true
    → HasSecond second masked len
    → length mask ≡ (if masked then 4 else 0)
    → len < 2 ^ 63
    → len ≤ length rest
    → my.needed_length ≡ 0
    → my.frame_length ≡ 2 + payload_n len + (if masked then 4 else 0) + len
    → let u =
        first_byte is_fin opcode
        ∷ second
        ∷ (extended_bytes (payload_n len) len ++ (mask ++ rest)) in
      read_frame alloc utf8 my u
      ≡ read_payload alloc utf8 my
          (record {
            is_fin = is_fin;
            opcode = if opcode == 0 then my.continued_opcode else opcode;
            is_masking = masked && not (is_zero_mask mask);
          })
          mask
          len
          rest
          u
unfolding read_frame
read_frame-header alloc utf8 my is_fin opcode second len masked mask rest known has four small long
      waiting whole =
    let f = first_byte-HasFirst is_fin opcode known in
    let l = length-HasLength len (omega arith) in
    let n = payload_n len in
    let k : ℕ = if masked then 4 else 0 in
    let ext = extended_bytes n len in
    let size : length (ext ++ (mask ++ rest)) ≡ n + k + length rest =
      omega (arith, length-append ext (mask ++ rest), length-append mask rest, l.extension, four) in
    let nonzero : (2 + n + k + len == 0) ≡ false = ground arith in
    let enough : ltb (suc (suc (length (ext ++ (mask ++ rest))))) (2 + n + k + len) ≡ false =
      ground (arith, size) in
    let header : ltb (suc (suc (length (ext ++ (mask ++ rest))))) (2 + n + k) ≡ false =
      ground (arith, size) in
    let behind = drop_two n (first_byte is_fin opcode) second (ext ++ (mask ++ rest)) in
    let past = drop_three n k (first_byte is_fin opcode) second ext mask rest l.extension four in
    rw (
      f.fin,
      f.same,
      has.low,
      has.mask,
      not_twice masked,
      l.same_n,
      waiting,
      whole,
      nonzero,
      enough,
      header,
      behind,
      last_part ext (mask ++ rest) n l.extension,
      first_part mask rest k four,
      past,
      rest_length len k small (four_or_none masked),
    )

-- `ws_read_frame` gives back what `ws_send_frame` wrote: for a frame whose length was read, its
-- final flag, its opcode (that of the message for a continuation), whether it is masked, and the
-- payload, unmasked, behind the payloads before it; the bytes that follow the frame are left. The
-- frame is allowed after what was read before, a mask has four bytes and is not zero, a text is
-- valid, the payload is shorter than 2 ^ 63, and memory is not exhausted.
pub read_frame-frame_bytes :
    {W : Type 0} (alloc : ℕ → Bool) (utf8 : Utf8) (my : WebSocket W) (is_fin : Bool) (opcode : ℕ)
    (mask : Option (List ℕ)) (payload more : List ℕ)
    → ((n : ℕ) → alloc n ≡ true)
    → IsAllowed my.continued_opcode is_fin opcode (length payload)
    → IsMask mask
    → IsUsable mask
    → length payload < 2 ^ 63
    → my.needed_length ≡ 0
    → my.frame_length ≡ length (frame_bytes is_fin opcode mask payload)
    → IsValid my.data_buffer
    → length my.data_buffer.live + length payload < size_mod
    → let meant = if opcode == 0 then my.continued_opcode else opcode in
      (meant ≡ 1 → validate utf8 utf8.valid payload ≡ true)
      → (d : CharBuffer) × (read_frame alloc utf8 my
            (frame_bytes is_fin opcode mask payload ++ more)
          ≡ some (
            success,
            some (record { is_fin = is_fin; opcode = meant; is_masking = is_masked mask }),
            more,
            record my { data_buffer = d },
          ))
        × HasPayload my.data_buffer payload d
read_frame-frame_bytes alloc utf8 my is_fin opcode mask payload more all allowed four usable small
      waiting whole valid room text =
    let len = length payload in
    let mp = mask_payload mask payload in
    let rest = mp ++ more in
    let size = length-frame_bytes is_fin opcode mask payload four small in
    let long : len ≤ length rest =
      omega (arith, length-append mp more, length-mask_payload mask payload) in
    let head =
      read_frame-header alloc utf8 my is_fin opcode (second_byte mask len) len (is_masked mask)
        (mask_bytes mask) rest allowed.known (second_byte-HasSecond mask len small)
        (length-mask_bytes mask four) small long waiting (whole ∙ size) in
    let (d, read, has) =
      read_payload_lem alloc all utf8 my payload valid room
        (record {
          is_fin = is_fin;
          opcode = if opcode == 0 then my.continued_opcode else opcode;
          is_masking = is_masked mask && not (is_zero_mask (mask_bytes mask));
        })
        (mask_bytes mask) mp more
        (first_byte is_fin opcode
          ∷ second_byte mask len
          ∷ (extended_bytes (payload_n len) len ++ (mask_bytes mask ++ rest)))
        (unmasked mask payload usable) (length-mask_payload mask payload) text in
    (
      d,
      rw (frame_parts is_fin opcode mask payload more) (
          head
          ∙ read
          ∙ ap
              (λ (b : Bool). some (
                success,
                some (record {
                  is_fin = is_fin;
                  opcode = if opcode == 0 then my.continued_opcode else opcode;
                  is_masking = b;
                }),
                more,
                record my { data_buffer = d },
              ))
              (usable_flag mask usable)),
      has,
    )
