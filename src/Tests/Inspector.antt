-- ===== src/Tests/Inspector.antt =====
-- src/webinspector.c at concrete messages and byte streams.
use mathlib.Core.List.{flatten}
use ios_webkit_debug_proxy.Prelude.{
  ℕ, ◌+◌, ◌≤◌, ◌≡◌, refl, Bool, true, false, some, List, [], ◌∷◌, ◌++◌, length, map, replicate,
  length-replicate, arith,
}
use ios_webkit_debug_proxy.Prelude.Status.{Status, success}
use ios_webkit_debug_proxy.CharBuffer.{new, null, begin_input, end_input, ensure_capacity, append}
use ios_webkit_debug_proxy.CharBuffer.Capacity.{IsValid, new-IsValid}
use ios_webkit_debug_proxy.Framing.{Source, deliver}
use ios_webkit_debug_proxy.Framing.Packets.{idle}
use ios_webkit_debug_proxy.Framing.Deliver.{HasDelivered}
use ios_webkit_debug_proxy.WebInspector.Packet.{length_bytes, parse_length}
use ios_webkit_debug_proxy.WebInspector.Packet.Laws.{frame}
use ios_webkit_debug_proxy.WebInspector.Reader.{on_recv, recv_loop}
use ios_webkit_debug_proxy.WebInspector.Reader.Laws.{on_recv_total, on_recv_chunks, on_recv-sent}
use ios_webkit_debug_proxy.WebInspector.Session.{Session, send_plist, recv_packet}
use ios_webkit_debug_proxy.WebInspector.Session.Send.{log_packet, HasReceived, send_plist-received}
use ios_webkit_debug_proxy.Tests.Toy.{Toy, print, data_node, toy, toy_laws, toy_fit}

abbrev always : ℕ → Bool
always n = true

-- A handler that keeps the packets.
abbrev keep : List (List ℕ) → List ℕ → Status × List (List ℕ)
keep got p = (success, got ++ (p ∷ []))

abbrev fresh : Source (List (List ℕ))
fresh = record { input = new; reader = idle [] }

fresh-IsValid : IsValid fresh.input
fresh-IsValid = new-IsValid

-- A length and a half packet.
on_recv_total_example :
    (s : Status) × (my' : Source (List (List ℕ))) × (on_recv keep always fresh
        (some (0 ∷ 0 ∷ 0 ∷ 2 ∷ 7 ∷ []))
      ≡ some (s, my'))
    × IsValid my'.input
    × (length my'.input.live ≤ length fresh.input.live + 5)
on_recv_total_example =
    on_recv_total keep always fresh (0 ∷ 0 ∷ 0 ∷ 2 ∷ 7 ∷ []) (λ n. refl) new-IsValid
      (unfold new in omega arith)

on_recv-sent_example :
    (s : Status) × (my' : Source (List (List ℕ))) × (on_recv keep always
        (record { input = new; reader = idle [] })
        (some (flatten (map frame ((7 ∷ []) ∷ (8 ∷ 9 ∷ []) ∷ []))))
      ≡ some (s, my'))
    × HasDelivered keep [] (map frame ((7 ∷ []) ∷ (8 ∷ 9 ∷ []) ∷ [])) s my'
on_recv-sent_example =
    on_recv-sent keep always new [] ((7 ∷ []) ∷ (8 ∷ 9 ∷ []) ∷ []) (λ n. refl) new-IsValid
      (unfold new in refl) (omega arith, (omega arith, tt))
      (unfold flatten length_bytes in omega arith)

-- The source after half a packet.
abbrev halfway : Source (List (List ℕ))
halfway = record {
  input = record {
    begin = true;
    head = 0;
    tail = 5;
    end = 1024;
    live = 0 ∷ 0 ∷ 0 ∷ 2 ∷ 7 ∷ [];
    input = null;
  };
  reader = record { has_length = true; body_length = 2; rest = [] };
}

half_read : on_recv keep always fresh (some (0 ∷ 0 ∷ 0 ∷ 2 ∷ 7 ∷ [])) ≡ some (success, halfway)
unfolding on_recv recv_loop parse_length new begin_input end_input ensure_capacity append
half_read = refl

on_recv_chunks_example :
    (s : Status) × (my₂ : Source (List (List ℕ))) × (my₂' : Source (List (List ℕ))) × (on_recv keep
        always halfway
        (some (8 ∷ []))
      ≡ some (s, my₂))
    × (on_recv keep always fresh (some ((0 ∷ 0 ∷ 0 ∷ 2 ∷ 7 ∷ []) ++ (8 ∷ []))) ≡ some (s, my₂'))
    × (my₂.reader ≡ my₂'.reader)
    × (my₂.input.live ≡ my₂'.input.live)
on_recv_chunks_example =
    on_recv_chunks keep always fresh halfway (0 ∷ 0 ∷ 0 ∷ 2 ∷ 7 ∷ []) (8 ∷ []) (λ n. refl)
      new-IsValid (unfold new in omega arith) half_read

-- A message of 7,600 bytes takes two packets.
abbrev long_message : Toy
long_message = data_node (replicate 7600 65)

abbrev idle_session : {W : Type 0} → W → Session W
idle_session w = record {
  is_sim = false;
  partials_supported = true;
  partial = new;
  faulted = false;
  world = w;
}

abbrev take_message : List Toy → Toy → Status × List Toy
take_message got p = (success, got ++ (p ∷ []))

send_plist-received_example :
    (packets : List (List ℕ)) × (send_plist toy always log_packet (idle_session []) long_message
      ≡ some (success, record (idle_session []) { world = [] ++ packets }))
    × HasReceived toy take_message
        (idle_session [])
        long_message
        (deliver (recv_packet toy always take_message) (idle_session []) packets)
send_plist-received_example =
    send_plist-received toy toy_laws always (λ n. refl) take_message toy_fit (idle_session [])
      (idle_session []) long_message (0 ∷ replicate 7600 65) refl refl new-IsValid
      (unfold new in refl) (unfold print in refl) (omega (arith, length-replicate {A = ℕ} 7600 65))
