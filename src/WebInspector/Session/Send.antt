-- ===== src/WebInspector/Session/Send.antt =====
-- `wi_send_plist` cuts a message into parts that the other end puts together again.
use Prim.Native.String.{String}
use ios_webkit_debug_proxy.Prelude.{
  ℕ, zero, suc, ◌+◌, ◌^◌, ◌≤◌, ◌<◌, ◌≡◌, refl, ap, ◌∙◌, ◌⊎◌, inl, inr, Bool, true, false, some,
  List, [], ◌∷◌, ◌++◌, length, take, drop, ltb, arith, length-append, length-take, length-drop,
  Bool-cases, append_assoc, take-append-drop, ltb→lt,
}
use ios_webkit_debug_proxy.Prelude.Status.{Status, success}
use ios_webkit_debug_proxy.CharBuffer.{CharBuffer}
use ios_webkit_debug_proxy.CharBuffer.Capacity.{IsValid}
use ios_webkit_debug_proxy.Framing.{deliver}
use ios_webkit_debug_proxy.Plist.{PlistApi, PlistLaws}
use ios_webkit_debug_proxy.WebInspector.Packet.{max_body_length, send}
use ios_webkit_debug_proxy.WebInspector.Packet.Laws.{frame}
use ios_webkit_debug_proxy.WebInspector.Session.{
  Session, final_key, partial_key, max_rpc_len, send_parts, send_plist, recv_packet,
}
use ios_webkit_debug_proxy.WebInspector.Session.Receive.{recv_packet_partial, recv_packet_final}

-- A transport that accepts every packet and keeps it.
abbrev pub log_packet : List (List ℕ) → List ℕ → Status × List (List ℕ)
log_packet sent packet = (success, sent ++ (packet ∷ []))

-- libplist prints a dictionary of one data item under one of the two keys, of at most `max_rpc_len`
-- bytes, in a body that is not over the limit.
abbrev pub PartsFit : PlistApi → Type 0
PartsFit api =
    (k : String) (part : List ℕ)
    → (k ≡ final_key) ⊎ (k ≡ partial_key)
    → length part ≤ max_rpc_len
    → (bytes : List ℕ) × (api.to_bin (api.new_dict_item k (api.new_data part)) ≡ some bytes)
      × (length bytes ≤ max_body_length)

module _ (api : PlistApi) {W : Type 0} (recv_plist : W → api.Plist → Status × W) where
  -- The session after the message `p`: handled once, with nothing kept.
  pub record HasReceived (my : Session W) (p : api.Plist) (r : Status × Session W) : Type 0 where
    pub status : r.0 ≡ (recv_plist my.world p).0
    pub world : r.1.world ≡ (recv_plist my.world p).1
    pub nothing_kept : r.1.partial.live ≡ []
    pub valid : IsValid r.1.partial
    pub no_fault : r.1.faulted ≡ my.faulted

module _ (api : PlistApi) (laws : PlistLaws api) (alloc : ℕ → Bool) (all : (n : ℕ) → alloc n ≡ true)
    {W : Type 0} (recv_plist : W → api.Plist → Status × W) where
  send-log :
      (w : List (List ℕ)) (body : List ℕ)
      → send alloc log_packet w body ≡ (success, w ++ (frame body ∷ []))
  unfolding send
  send-log w body = rw all

  module _ (f : ℕ) (rpc bytes : List ℕ) (w : List (List ℕ)) where
    send_parts_last :
        ltb max_rpc_len (length rpc) ≡ false
        → api.to_bin (api.new_dict_item final_key (api.new_data rpc)) ≡ some bytes
        → send_parts api alloc log_packet (suc f) rpc w ≡ some (success, w ++ (frame bytes ∷ []))
    unfolding send_parts
    send_parts_last last printed = ground (arith, last, printed, send-log w bytes)

    send_parts_more :
        ltb max_rpc_len (length rpc) ≡ true
        → api.to_bin (api.new_dict_item partial_key (api.new_data (take max_rpc_len rpc)))
          ≡ some bytes
        → send_parts api alloc log_packet (suc f) rpc w
          ≡ send_parts api alloc log_packet f (drop max_rpc_len rpc) (w ++ (frame bytes ∷ []))
    unfolding send_parts
    send_parts_more more printed = ground (arith, more, printed, send-log w bytes)

  module _ (my : Session W) (p : api.Plist) (bytes : List ℕ) (d : CharBuffer) (v : IsValid d) where
    received_last :
        recv_packet api alloc recv_plist my (frame bytes) ≡ (
          (recv_plist my.world p).0,
          record my { partial = d; world = (recv_plist my.world p).1 },
        )
        → d.live ≡ []
        → HasReceived api recv_plist my p
            (deliver (recv_packet api alloc recv_plist) my (frame bytes ∷ []))
    unfolding deliver
    received_last run l = ground (arith, run, l)

    received_more :
        (packets : List (List ℕ))
        → recv_packet api alloc recv_plist my (frame bytes) ≡ (success, record my { partial = d })
        → HasReceived api recv_plist
            (record my { partial = d })
            p
            (deliver (recv_packet api alloc recv_plist) (record my { partial = d }) packets)
        → HasReceived api recv_plist my p
            (deliver (recv_packet api alloc recv_plist) my (frame bytes ∷ packets))
    unfolding deliver
    received_more packets run r = ground (arith, run)

  -- The lengths in one round of the loop that has more to send.
  part_sizes :
      (f n : ℕ) (rpc : List ℕ)
      → length rpc < suc f
      → n + length rpc < 2 ^ 32
      → ltb max_rpc_len (length rpc) ≡ true
      → (length (take max_rpc_len rpc) ≤ max_rpc_len)
        × (n + length (take max_rpc_len rpc) < 2 ^ 32)
        × (length (drop max_rpc_len rpc) < f)
        × (n + length (take max_rpc_len rpc) + length (drop max_rpc_len rpc) < 2 ^ 32)
  part_sizes f n rpc fuel small more =
      let lt : max_rpc_len < length rpc = ltb→lt _ _ more in
      let t = length-take max_rpc_len rpc in
      let d = length-drop max_rpc_len rpc in
      (omega (arith, t), omega (arith, t), omega (arith, d), omega (arith, t, d))

  module _ (fit : PartsFit api) where
    send_parts-received :
        (f : ℕ) (rpc : List ℕ) (w : List (List ℕ)) (my : Session W) (p : api.Plist)
        → length rpc < f
        → my.partials_supported ≡ true
        → IsValid my.partial
        → length my.partial.live + length rpc < 2 ^ 32
        → api.from_bin (my.partial.live ++ rpc) ≡ some p
        → (packets : List (List ℕ)) × (send_parts api alloc log_packet f rpc w
            ≡ some (success, w ++ packets))
          × HasReceived api recv_plist my p (deliver (recv_packet api alloc recv_plist) my packets)
    send_parts-received zero rpc w my p fuel supported valid small whole = absurd (omega arith)
    send_parts-received (suc f) rpc w my p fuel supported valid small whole =
        elim (Bool-cases (ltb max_rpc_len (length rpc))) [
          | inr last ↦
              let (bytes, printed, short) = fit final_key rpc (inl refl) (ground arith) in
              let (d, run, v, l) =
                recv_packet_final api laws alloc all recv_plist my rpc bytes supported valid small
                  short p printed whole in
              (
                frame bytes ∷ [],
                send_parts_last f rpc bytes w last printed,
                received_last my p bytes d v run l,
              )
          | inl more ↦
              let part = take max_rpc_len rpc in
              let rest = drop max_rpc_len rpc in
              let (s₁, s₂, s₃, s₄) = part_sizes f (length my.partial.live) rpc fuel small more in
              let (bytes, printed, short) = fit partial_key part (inr refl) s₁ in
              let (d, run, v, l) =
                recv_packet_partial api laws alloc all recv_plist my part bytes supported valid s₂
                  short printed in
              let total : length d.live + length rest < 2 ^ 32 = rw (l, length-append) s₄ in
              let text : d.live ++ rest ≡ my.partial.live ++ rpc =
                ap (λ x. x ++ rest) l
                ∙ append_assoc my.partial.live part rest
                ∙ ap (λ x. my.partial.live ++ x) (take-append-drop max_rpc_len rpc) in
              let (packets, sent, received) =
                send_parts-received f rest (w ++ (frame bytes ∷ [])) (record my { partial = d }) p
                  s₃ supported v total (ap api.from_bin text ∙ whole) in
              (
                frame bytes ∷ packets,
                send_parts_more f rpc bytes w more printed
                    ∙ sent
                    ∙ ap (λ x. some (success, x)) (append_assoc w (frame bytes ∷ []) packets),
                received_more my p bytes d v packets run received,
              )
        ]

    -- A message sent in partial messages over a transport that accepts every packet arrives: the
    -- receiver that is handed the packets in order, and has kept nothing before, hands that one
    -- message to its handler, exactly once, and has kept nothing after. The message prints to fewer
    -- than 2 ^ 32 bytes, and memory is not exhausted on either side.
    pub send_plist-received :
        (sender : Session (List (List ℕ))) (receiver : Session W) (p : api.Plist) (rpc : List ℕ)
        → sender.partials_supported ≡ true
        → receiver.partials_supported ≡ true
        → IsValid receiver.partial
        → receiver.partial.live ≡ []
        → api.to_bin p ≡ some rpc
        → length rpc < 2 ^ 32
        → (packets : List (List ℕ)) × (send_plist api alloc log_packet sender p
            ≡ some (success, record sender { world = sender.world ++ packets }))
          × HasReceived api recv_plist receiver p
              (deliver (recv_packet api alloc recv_plist) receiver packets)
    unfolding send_plist
    send_plist-received sender receiver p rpc from to valid empty printed small =
        let parsed : api.from_bin (receiver.partial.live ++ rpc) ≡ some p =
          rw empty (laws.parse-print p rpc printed) in
        let size : length receiver.partial.live + length rpc < 2 ^ 32 = rw empty (omega arith) in
        let (packets, sent, received) =
          send_parts-received (length rpc + 1) rpc sender.world receiver p (omega arith) to valid
            size parsed in
        (packets, ground (arith, printed, sent, from), received)
