-- ===== src/WebInspector/Session/Receive.antt =====
-- What one packet does to the message that is being put together.
use ios_webkit_debug_proxy.Prelude.{
  ℕ, ◌+◌, ◌-◌, ◌^◌, ◌≤◌, ◌<◌, ◌≡◌, ◌≢◌, ap, ◌∙◌, inl, inr, Bool, true, false, some, none, List, [],
  ◌++◌, length, take, ltb, arith, length-append, take-length, Bool-cases,
}
use Prim.Native.String.{len}
use native.Mathlib.Nat.{mod-eq_of_lt}
use ios_webkit_debug_proxy.Prelude.Status.{Status, success}
use ios_webkit_debug_proxy.CharBuffer.{CharBuffer, size_mod, ensure_capacity, append, clear}
use ios_webkit_debug_proxy.CharBuffer.Capacity.{
  IsValid, ensure_capacity-HasRoom, ensure_capacity-total,
}
use ios_webkit_debug_proxy.CharBuffer.Stream.{live-empty}
use ios_webkit_debug_proxy.Plist.{PlistApi, PlistLaws}
use ios_webkit_debug_proxy.WebInspector.Packet.{max_body_length, parse_length}
use ios_webkit_debug_proxy.WebInspector.Packet.Laws.{
  frame, length-length_bytes, take-length_bytes, drop-length_bytes, parse_length-length_bytes,
}
use ios_webkit_debug_proxy.WebInspector.Session.{
  Session, final_key, partial_key, read_plist, found, collect, parse_item, parse_plist, dispatch,
  recv_packet,
}

keys-ne : final_key ≢ partial_key
keys-ne e = absurd (omega (arith, ap len e))

module _ (api : PlistApi) (laws : PlistLaws api) (alloc : ℕ → Bool) (all : (n : ℕ) → alloc n ≡ true)
    {W : Type 0} (recv_plist : W → api.Plist → Status × W) where
  recv_packet-frame :
      (my : Session W) (body : List ℕ)
      → length body ≤ max_body_length
      → recv_packet api alloc recv_plist my (frame body)
        ≡ dispatch api alloc recv_plist (parse_plist api alloc recv_plist my body)
  unfolding recv_packet
  recv_packet-frame my body fits =
      let read : parse_length (take 4 (frame body)) ≡ (success, length body) =
        rw take-length_bytes (parse_length-length_bytes (length body) fits) in
      let size = length-length_bytes (length body) body in
      let rest = drop-length_bytes (length body) body in
      ground (arith, size, read, rest, take-length body, ap (take (length body)) rest)

  -- The bytes collected after `rpc` was added; the buffer did not overrun its block.
  collected :
      (c : CharBuffer) (rpc : List ℕ)
      → IsValid c
      → length c.live + length rpc < size_mod
      → (d : CharBuffer) × ((ensure_capacity alloc c (length rpc)).0 ≡ success)
        × (append (ensure_capacity alloc c (length rpc)).1 rpc ≡ some d)
        × IsValid d
        × (d.live ≡ c.live ++ rpc)
  unfolding append
  collected c rpc valid small =
      let ok = ensure_capacity-total alloc c (length rpc) all in
      let r = ensure_capacity-HasRoom alloc c (length rpc) valid small ok in
      let d = (ensure_capacity alloc c (length rpc)).1 in
      (
        record d { tail = d.tail + length rpc; live = d.live ++ rpc },
        ok,
        ground (arith, r.room),
        ground (arith, length-append d.live rpc, r.valid),
        rw r.same_live,
      )

  read-short :
      (bytes : List ℕ)
      → length bytes < 2 ^ 32
      → read_plist api alloc recv_plist bytes ≡ api.from_bin bytes
  unfolding read_plist
  read-short bytes h = ap api.from_bin (ap (λ k. take k bytes) (mod-eq_of_lt h) ∙ take-length bytes)

  module _ (my : Session W) (rpc : List ℕ) (supported : my.partials_supported ≡ true)
      (valid : IsValid my.partial) (small : length my.partial.live + length rpc < 2 ^ 32) where
    parse_item_partial :
        (wi_rpc : api.Plist)
        → api.get_data_val wi_rpc ≡ some rpc
        → (d : CharBuffer) × (parse_item api alloc recv_plist my true wi_rpc
            ≡ (success, none, true, record my { partial = d }))
          × IsValid d
          × (d.live ≡ my.partial.live ++ rpc)
    unfolding parse_item collect
    parse_item_partial wi_rpc item =
        let (d, ok, wrote, v, l) = collected my.partial rpc valid (omega arith) in
        (d, ground (arith, item), v, l)

    parse_item_final :
        (wi_rpc p : api.Plist)
        → api.get_data_val wi_rpc ≡ some rpc
        → api.from_bin (my.partial.live ++ rpc) ≡ some p
        → (d : CharBuffer) × (parse_item api alloc recv_plist my false wi_rpc
            ≡ (success, some p, false, record my { partial = d }))
          × IsValid d
          × (d.live ≡ [])
    unfolding parse_item collect found clear
    parse_item_final wi_rpc p item whole =
        elim (Bool-cases (ltb 0 (my.partial.tail - my.partial.head))) [
          | inl started ↦
              let (d, ok, wrote, v, l) = collected my.partial rpc valid (omega arith) in
              let read : read_plist api alloc recv_plist d.live ≡ some p =
                rw (l, read-short (my.partial.live ++ rpc) (rw length-append small)) whole in
              (clear d, ground (arith, item, read), ground arith, ground arith)
          | inr fresh ↦
              let none_held : my.partial.live ≡ [] = live-empty my.partial.live (ground arith) in
              let read-fresh : read_plist api alloc recv_plist rpc ≡ some p =
                read-short rpc (omega arith) ∙ rw none_held at whole in
              (my.partial, ground (arith, item, read-fresh), valid, none_held)
        ]

  module _ (my : Session W) (part bytes : List ℕ) (supported : my.partials_supported ≡ true)
      (valid : IsValid my.partial) (small : length my.partial.live + length part < 2 ^ 32)
      (fits : length bytes ≤ max_body_length) where
    -- A partial message is kept behind the ones before it.
    pub recv_packet_partial :
        api.to_bin (api.new_dict_item partial_key (api.new_data part)) ≡ some bytes
        → (d : CharBuffer) × (recv_packet api alloc recv_plist my (frame bytes)
            ≡ (success, record my { partial = d }))
          × IsValid d
          × (d.live ≡ my.partial.live ++ part)
    unfolding parse_plist dispatch
    recv_packet_partial printed =
        let (d, item, v, l) =
          parse_item_partial my part supported valid small (api.new_data part)
            (laws.data_val part) in
        let parsed : parse_plist api alloc recv_plist my bytes
            ≡ (success, none, true, record my { partial = d }) =
          ground (
            arith,
            laws.parse-print (api.new_dict_item partial_key (api.new_data part)) bytes printed,
            laws.item_other final_key partial_key (api.new_data part) keys-ne,
            laws.item_self partial_key (api.new_data part),
            item,
          ) in
        (d, recv_packet-frame my bytes fits ∙ rw (parsed, dispatch), v, l)

    -- The final message ends the row: what was kept and its own bytes are parsed and handed on.
    pub recv_packet_final :
        (p : api.Plist)
        → api.to_bin (api.new_dict_item final_key (api.new_data part)) ≡ some bytes
        → api.from_bin (my.partial.live ++ part) ≡ some p
        → (d : CharBuffer) × (recv_packet api alloc recv_plist my (frame bytes) ≡ (
          (recv_plist my.world p).0,
          record my { partial = d; world = (recv_plist my.world p).1 },
        ))
          × IsValid d
          × (d.live ≡ [])
    unfolding parse_plist dispatch
    recv_packet_final p printed whole =
        let (d, item, v, l) =
          parse_item_final my part supported valid small (api.new_data part) p (laws.data_val part)
            whole in
        let parsed : parse_plist api alloc recv_plist my bytes
            ≡ (success, some p, false, record my { partial = d }) =
          ground (
            arith,
            laws.parse-print (api.new_dict_item final_key (api.new_data part)) bytes printed,
            laws.item_self final_key (api.new_data part),
            item,
          ) in
        (d, recv_packet-frame my bytes fits ∙ rw (parsed, dispatch), v, l)
