-- ===== src/Tests/Sockets.antt =====
-- src/websocket.c at concrete frames.
use ios_webkit_debug_proxy.Prelude.{
  ℕ, ◌≡◌, refl, Bool, true, false, some, none, List, [], ◌∷◌, ◌++◌, length, arith,
}
use ios_webkit_debug_proxy.Prelude.Status.{Status, success, error}
use ios_webkit_debug_proxy.CharBuffer.{CharBuffer, new, clear, ensure_capacity, append}
use ios_webkit_debug_proxy.CharBuffer.Capacity.{new-IsValid}
use ios_webkit_debug_proxy.WebSocket.{Utf8, WebSocket, frame_bytes, validate}
use ios_webkit_debug_proxy.WebSocket.Send.{send_frame, may_send, write_frame, opcode_sent}
use ios_webkit_debug_proxy.WebSocket.Read.{read_frame_length, read_frame}
use ios_webkit_debug_proxy.WebSocket.Received.{IsAllowed, read_frame_length-frame_bytes}
use ios_webkit_debug_proxy.WebSocket.Payload.{IsUsable, read_frame-frame_bytes}
use ios_webkit_debug_proxy.WebSocket.Stored.{HasPayload}
use ios_webkit_debug_proxy.WebSocket.Closing.{send_frame-after_close, send_frame-keeps_row}
use ios_webkit_debug_proxy.WebSocket.Sent.{IsOpcode, send_frame-frame_bytes}

abbrev always : ℕ → Bool
always n = true

-- Every byte is a character.
abbrev any_byte : Utf8
any_byte = record { next = λ n. 0; valid = 0; invalid = 1 }

abbrev take_data : List (List ℕ) → List ℕ → Status × List (List ℕ)
take_data sent bytes = (success, sent ++ (bytes ∷ []))

abbrev open_socket : WebSocket (List (List ℕ))
open_socket = record {
  continued_opcode = 0;
  sent_close = false;
  needed_length = 0;
  frame_length = 0;
  out = new;
  data_buffer = new;
  world = [];
}

-- A text of two letters, masked.
abbrev letters : List ℕ
letters = 72 ∷ 105 ∷ []

abbrev four : List ℕ
four = 1 ∷ 2 ∷ 3 ∷ 4 ∷ []

letters-IsAllowed : IsAllowed 0 true 1 2
letters-IsAllowed = record {
  known = refl;
  control = λ e. cc e;
  goes_on = λ e. cc e;
  starts = λ e f. refl;
}

read_frame_length-frame_bytes_example :
    read_frame_length open_socket (frame_bytes true 1 (some four) letters ++ (9 ∷ [])) ≡ (
      success,
      record open_socket {
        needed_length = 0;
        frame_length = length (frame_bytes true 1 (some four) letters);
      },
    )
read_frame_length-frame_bytes_example =
    read_frame_length-frame_bytes open_socket true 1 (some four) letters (9 ∷ []) letters-IsAllowed
      refl (omega arith)

-- The socket that has read the frame's length.
abbrev ready_socket : WebSocket (List (List ℕ))
ready_socket = record open_socket { frame_length = length (frame_bytes true 1 (some four) letters) }

letters_valid : validate any_byte 0 letters ≡ true
unfolding validate
letters_valid = refl

read_frame-frame_bytes_example :
    (d : CharBuffer) × (read_frame always any_byte ready_socket
        (frame_bytes true 1 (some four) letters ++ (9 ∷ []))
      ≡ some (
        success,
        some (record { is_fin = true; opcode = 1; is_masking = true }),
        9 ∷ [],
        record ready_socket { data_buffer = d },
      ))
    × HasPayload ready_socket.data_buffer letters d
read_frame-frame_bytes_example =
    read_frame-frame_bytes always any_byte ready_socket true 1 (some four) letters (9 ∷ [])
      (λ n. refl) letters-IsAllowed refl (unfold IsUsable in refl) (omega arith) refl refl
      new-IsValid (unfold new in omega arith) (λ e. letters_valid)

send_frame-frame_bytes_example :
    let bytes =
      frame_bytes true (opcode_sent always any_byte take_data open_socket 1) (some four) letters in
    let (ret, w) = take_data open_socket.world bytes in
    (my' : WebSocket (List (List ℕ))) × (send_frame always any_byte take_data open_socket true 1
        (some four)
        (some letters)
      ≡ some (ret, my'))
    × (my'.world ≡ w)
    × IsOpcode always
        (λ n. refl)
        any_byte
        take_data
        open_socket
        1
        (opcode_sent always any_byte take_data open_socket 1)
send_frame-frame_bytes_example =
    send_frame-frame_bytes always (λ n. refl) any_byte take_data open_socket true 1 (some four)
      letters (unfold may_send validate opcode_sent in refl) new-IsValid refl (omega arith)

-- The socket after a close frame without a payload.
abbrev close_bytes : List ℕ
close_bytes = 136 ∷ 0 ∷ []

abbrev closing_socket : WebSocket (List (List ℕ))
closing_socket = record open_socket {
  out = record new { begin = true; tail = 2; end = 1024; live = close_bytes };
  sent_close = true;
  world = close_bytes ∷ [];
}

close_sent :
    send_frame always any_byte take_data open_socket true 8 none (some [])
    ≡ some (success, closing_socket)
unfolding send_frame write_frame may_send opcode_sent frame_bytes ensure_capacity append new clear
close_sent = refl

send_frame-after_close_example :
    send_frame always any_byte take_data closing_socket true 1 none (some letters)
    ≡ some (error, closing_socket)
send_frame-after_close_example =
    send_frame-after_close always any_byte take_data open_socket closing_socket true true 1 none
      none (some []) (some letters) close_sent

-- A text of two parts, of which the first has been sent.
abbrev halfway_socket : WebSocket (List (List ℕ))
halfway_socket = record open_socket { continued_opcode = 1 }

-- The socket after the second part, which is final.
abbrev last_bytes : List ℕ
last_bytes = 128 ∷ 2 ∷ letters

abbrev after_last : WebSocket (List (List ℕ))
after_last = record halfway_socket {
  out = record new { begin = true; tail = 4; end = 1024; live = last_bytes };
  world = last_bytes ∷ [];
}

last_sent :
    send_frame always any_byte take_data halfway_socket true 1 none (some letters)
    ≡ some (success, after_last)
unfolding send_frame write_frame may_send opcode_sent frame_bytes validate ensure_capacity append
    new clear
last_sent = refl

send_frame-keeps_row_example : after_last.continued_opcode ≡ halfway_socket.continued_opcode
send_frame-keeps_row_example =
    send_frame-keeps_row always any_byte take_data halfway_socket after_last true 1 none
      (some letters) success (λ e. cc e) last_sent
