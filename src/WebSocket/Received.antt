-- ===== src/WebSocket/Received.antt =====
-- A frame as `ws_send_frame` writes it, read by `ws_read_frame_length` and `ws_read_frame`.
use ios_webkit_debug_proxy.Prelude.{
  ℕ, suc, ◌+◌, ◌%◌, ◌^◌, ◌≤◌, ◌<◌, ◌≡◌, ◌≢◌, refl, ap, ◌∙◌, bit_and, bit_or, Bool, true, false, not,
  Option, some, none, List, [], ◌∷◌, ◌++◌, length, take, drop, ltb, leb, ◌==◌, if◌then◌else◌, arith,
  inl, inr, Bool-cases, length-append, append_assoc, take-length-append, drop-length-append, ==_iff,
}
use ios_webkit_debug_proxy.Prelude.Status.{success}
use ios_webkit_debug_proxy.WebSocket.{
  WebSocket, is_opcode, is_control, extended_bytes, payload_n, length_byte, apply_mask, frame_bytes,
}
use ios_webkit_debug_proxy.WebSocket.Frame.{
  first_byte, first_byte-HasFirst, length-HasLength, second-masked, second-plain, length-apply_mask,
}
use ios_webkit_debug_proxy.WebSocket.Read.{is_refused, read_frame_length}

-- A frame that the protocol allows after what the receiver has read.
pub record IsAllowed (continued_opcode : ℕ) (is_fin : Bool) (opcode : ℕ) (len : ℕ) : Type 0 where
  pub known : is_opcode opcode ≡ true
  pub control : is_control opcode ≡ true → (is_fin ≡ true) × (len ≤ 125)
  pub goes_on : opcode ≡ 0 → continued_opcode ≢ 0
  pub starts : is_control opcode ≡ false → opcode ≢ 0 → continued_opcode ≡ 0

-- The second byte says whether there is a mask, and the seven bits of the length.
pub record HasSecond (second : ℕ) (masked : Bool) (len : ℕ) : Type 0 where
  pub low : bit_and second 0x7f ≡ length_byte len
  pub mask : (bit_and second 0x80 == 0) ≡ not masked

control_length : (len : ℕ) → len ≤ 125 → length_byte len ≡ len
unfolding length_byte payload_n
control_length len h = ground arith

pub flip : (b : Bool) → ◌≡◌ {A = ℕ} (if not b then 0 else 4) (if b then 4 else 0)
flip true = refl
flip false = refl

pub first_part : (xs ys : List ℕ) (n : ℕ) → length xs ≡ n → take n (xs ++ ys) ≡ xs
first_part xs ys n e = rw (← e) (take-length-append xs ys)

pub last_part : (xs ys : List ℕ) (n : ℕ) → length xs ≡ n → drop n (xs ++ ys) ≡ ys
last_part xs ys n e = rw (← e) (drop-length-append xs ys)

module _ {W : Type 0} (my : WebSocket W) (is_fin : Bool) (opcode second len : ℕ) (masked : Bool)
    (allowed : IsAllowed my.continued_opcode is_fin opcode len) (small : len < 2 ^ 63)
    (has : HasSecond second masked len) where
  accepted : is_refused my (first_byte is_fin opcode) second ≡ false
  unfolding is_refused
  accepted =
      let f = first_byte-HasFirst is_fin opcode allowed.known in
      rw (f.fin, f.reserved, f.same, allowed.known, has.low)
        (elim (Bool-cases (leb 8 opcode)) [
          | inl c ↦
              let (fin, short) = allowed.control c in
              let nonzero : (opcode == 0) ≡ false = ground (arith, c) in
              let fits : ltb 125 (length_byte len) ≡ false =
                ground (arith, control_length len short) in
              rw (c, fin, nonzero, fits)
          | inr d ↦ elim (Bool-cases (opcode == 0)) [
            | inl z ↦
                let row : (my.continued_opcode == 0) ≡ false =
                  ground (arith, allowed.goes_on ((==_iff opcode 0).0 z)) in
                rw (d, z, row)
            | inr n ↦
                let row : (my.continued_opcode == 0) ≡ true =
                  (==_iff my.continued_opcode 0).1 (allowed.starts d (λ e. ground (arith, e, n))) in
                rw (d, n, row)
          ]
        ])

  -- The bytes of the header, in front of the mask and the payload.
  abbrev mask_n : ℕ
  mask_n = if masked then 4 else 0

  read_frame_length-header :
      (rest : List ℕ)
      → read_frame_length my
          (first_byte is_fin opcode ∷ second ∷ (extended_bytes (payload_n len) len ++ rest))
        ≡ (
          success,
          record my {
            needed_length = 0;
            frame_length = (2 + payload_n len + mask_n + len) % 2 ^ 64;
          },
        )
  unfolding read_frame_length
  read_frame_length-header rest =
      let ext = extended_bytes (payload_n len) len in
      let l = length-HasLength len (omega arith) in
      let two : ltb (suc (suc (length (ext ++ rest)))) 2 ≡ false = ground arith in
      let whole : ltb (suc (suc (length (ext ++ rest)))) (2 + payload_n len) ≡ false =
        ground (arith, length-append ext rest, l.extension) in
      rw (
        two,
        accepted,
        has.low,
        l.same_n,
        whole,
        has.mask,
        flip masked,
        first_part ext rest (payload_n len) l.extension,
        l.value,
      )

-- A mask has four bytes.
abbrev pub IsMask : Option (List ℕ) → Type 0
IsMask none = Unit
IsMask (some m) = length m ≡ 4

abbrev pub is_masked : Option (List ℕ) → Bool
is_masked none = false
is_masked (some m) = true

abbrev pub mask_bytes : Option (List ℕ) → List ℕ
mask_bytes none = []
mask_bytes (some m) = m

abbrev pub mask_payload : Option (List ℕ) → List ℕ → List ℕ
mask_payload none payload = payload
mask_payload (some m) payload = apply_mask m 0 payload

abbrev pub second_byte : Option (List ℕ) → ℕ → ℕ
second_byte none len = bit_or 0 (length_byte len)
second_byte (some m) len = bit_or 0x80 (length_byte len)

pub second_byte-HasSecond :
    (mask : Option (List ℕ)) (len : ℕ)
    → len < 2 ^ 63
    → HasSecond (second_byte mask len) (is_masked mask) len
second_byte-HasSecond none len small =
    let (low, mask) =
      second-plain (length_byte len) (length-HasLength len (omega arith)).seven_bits in
    record { low = low; mask = mask }
second_byte-HasSecond (some m) len small =
    let (low, mask) =
      second-masked (length_byte len) (length-HasLength len (omega arith)).seven_bits in
    record { low = low; mask = mask }

pub length-mask_payload :
    (mask : Option (List ℕ)) (payload : List ℕ)
    → length (mask_payload mask payload) ≡ length payload
length-mask_payload none payload = refl
length-mask_payload (some m) payload = length-apply_mask m 0 payload

pub length-mask_bytes :
    (mask : Option (List ℕ))
    → IsMask mask
    → length (mask_bytes mask) ≡ (if is_masked mask then 4 else 0)
length-mask_bytes none four = refl
length-mask_bytes (some m) four = four

-- The parts of a frame, with what follows it.
pub frame_parts :
    (is_fin : Bool) (opcode : ℕ) (mask : Option (List ℕ)) (payload more : List ℕ)
    → frame_bytes is_fin opcode mask payload ++ more
      ≡ first_byte is_fin opcode
        ∷ second_byte mask (length payload)
        ∷ (extended_bytes (payload_n (length payload)) (length payload)
            ++ (mask_bytes mask ++ (mask_payload mask payload ++ more)))
unfolding frame_bytes
frame_parts is_fin opcode none payload more =
    ap (λ (t : List ℕ). first_byte is_fin opcode ∷ second_byte none (length payload) ∷ t)
      (append_assoc (extended_bytes (payload_n (length payload)) (length payload)) payload more)
frame_parts is_fin opcode (some m) payload more =
    let ext = extended_bytes (payload_n (length payload)) (length payload) in
    ap (λ (t : List ℕ). first_byte is_fin opcode ∷ second_byte (some m) (length payload) ∷ t)
      (append_assoc ext (m ++ apply_mask m 0 payload) more
        ∙ ap (λ (t : List ℕ). ext ++ t) (append_assoc m (apply_mask m 0 payload) more))

pub length-frame_bytes :
    (is_fin : Bool) (opcode : ℕ) (mask : Option (List ℕ)) (payload : List ℕ)
    → IsMask mask
    → length payload < 2 ^ 63
    → length (frame_bytes is_fin opcode mask payload)
      ≡ 2 + payload_n (length payload) + (if is_masked mask then 4 else 0) + length payload
unfolding frame_bytes
length-frame_bytes is_fin opcode none payload four small =
    let l = length-HasLength (length payload) (omega arith) in
    omega (
      arith,
      length-append (extended_bytes (payload_n (length payload)) (length payload)) payload,
      l.extension,
    )
length-frame_bytes is_fin opcode (some m) payload four small =
    let l = length-HasLength (length payload) (omega arith) in
    omega (
      arith,
      length-append (extended_bytes (payload_n (length payload)) (length payload))
          (m ++ apply_mask m 0 payload),
      length-append m (apply_mask m 0 payload),
      length-apply_mask m 0 payload,
      four,
      l.extension,
    )

-- `ws_read_frame_length` finds the length of a frame as `ws_send_frame` writes it, whatever bytes
-- follow. The frame is allowed after what the receiver has read, its mask, if any, has four bytes,
-- and its payload is shorter than 2 ^ 63.
pub read_frame_length-frame_bytes :
    {W : Type 0} (my : WebSocket W) (is_fin : Bool) (opcode : ℕ) (mask : Option (List ℕ))
    (payload more : List ℕ)
    → IsAllowed my.continued_opcode is_fin opcode (length payload)
    → IsMask mask
    → length payload < 2 ^ 63
    → read_frame_length my (frame_bytes is_fin opcode mask payload ++ more) ≡ (
      success,
      record my {
        needed_length = 0;
        frame_length = length (frame_bytes is_fin opcode mask payload);
      },
    )
read_frame_length-frame_bytes my is_fin opcode mask payload more allowed four small =
    let len = length payload in
    let l = length-HasLength len (omega arith) in
    let size = length-frame_bytes is_fin opcode mask payload four small in
    let wide : (2 + payload_n len + (if is_masked mask then 4 else 0) + len) % 2 ^ 64
        ≡ length (frame_bytes is_fin opcode mask payload) =
      ground (arith, size, l.short, small) in
    rw (frame_parts is_fin opcode mask payload more) (
      read_frame_length-header my is_fin opcode (second_byte mask len) len (is_masked mask) allowed
        small (second_byte-HasSecond mask len small)
        (mask_bytes mask ++ (mask_payload mask payload ++ more))
      ∙ ap (λ (n : ℕ). (success, record my { needed_length = 0; frame_length = n })) wide)
