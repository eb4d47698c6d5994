-- ===== src/WebInspector/Session.antt =====
-- Messages over packets: `wi_send_plist`, `wi_parse_plist` and `wi_recv_packet`.
pub mod Send
pub mod Receive
use Prim.Native.String.{String}
use mathlib.Core.Option.{get_or}
use ios_webkit_debug_proxy.Prelude.{
  ℕ, zero, suc, ◌+◌, ◌-◌, ◌%◌, ◌^◌, Bool, true, false, not, ◌||◌, Option, some, none, List, [],
  length, take, drop, ltb, if◌then◌else◌,
}
use ios_webkit_debug_proxy.Prelude.Status.{Status, success, error}
use ios_webkit_debug_proxy.CharBuffer.{CharBuffer, ensure_capacity, append, clear}
use ios_webkit_debug_proxy.Plist.{PlistApi}
use ios_webkit_debug_proxy.WebInspector.Packet.{send, parse_length}

-- `MAX_RPC_LEN`, `8096 - 500`
abbrev pub max_rpc_len : ℕ
max_rpc_len = 7596

abbrev pub final_key : String
final_key = "WIRFinalMessageKey"

abbrev pub partial_key : String
partial_key = "WIRPartialMessageKey"

-- The fields of `struct wi_private` that the packet handler uses, and what the callbacks act on.
-- `faulted` says that a read or a write has left its block.
pub record Session (W : Type 0) : Type 0 where
  pub is_sim : Bool
  pub partials_supported : Bool
  pub partial : CharBuffer
  pub faulted : Bool
  pub world : W

module _ (api : PlistApi) (alloc : ℕ → Bool) where
  open api use {Plist, from_bin, to_bin, new_data, get_data_val, new_dict_item, dict_get_item}

  module _ {W : Type 0} (send_packet : W → List ℕ → Status × W) where
    -- The `for` loop of `wi_send_plist`, with the bytes from `rpc_bin + i` on; `none` if the fuel
    -- runs out.
    unfoldable pub send_parts : ℕ → List ℕ → W → Option (Status × W)
    send_parts zero rpc w = none
    send_parts (suc f) rpc w =
        let is_partial = ltb max_rpc_len (length rpc) in
        let part = if is_partial then take max_rpc_len rpc else rpc in
        let wi_dict =
          new_dict_item (if is_partial then partial_key else final_key) (new_data part) in
        elim (to_bin wi_dict) [
          | none ↦ some (error, w)
          | some bytes ↦
              let (not_sent, w') = send alloc send_packet w bytes in
              let more = send_parts f (drop max_rpc_len rpc) w' in
              elim not_sent [
                | error ↦ some (error, w')
                | success ↦ if is_partial then more else some (success, w')
              ]
        ]

    -- A NULL from `plist_to_bin` is no bytes.
    unfoldable pub send_plist : Session W → Plist → Option (Status × Session W)
    send_plist my rpc_dict =
        let rpc = get_or (to_bin rpc_dict) [] in
        let (ret, w) = send alloc send_packet my.world rpc in
        let prompted = if my.is_sim then w else (send alloc send_packet w []).1 in
        let parts : Option (Status × Session W) = elim (send_parts (length rpc + 1) rpc my.world) [
          | none ↦ none
          | some (s, w') ↦ some (s, record my { world = w' })
        ] in
        if not my.partials_supported then some (ret, record my { world = prompted }) else parts

  module _ {W : Type 0} (recv_plist : W → Plist → Status × W) where
    -- What `wi_parse_plist` returns and writes through `to_rpc_dict` and `to_is_partial`.
    abbrev pub Parsed : Type 0
    Parsed = Status × Option Plist × Bool × Session W

    -- The lengths are cast to `uint32_t`.
    read_plist : List ℕ → Option Plist
    read_plist bytes = from_bin (take (length bytes % 2 ^ 32) bytes)

    -- `return (*to_rpc_dict ? WI_SUCCESS : WI_ERROR);`
    found : Option Plist → Session W → Parsed
    found none my = (error, none, false, my)
    found (some d) my = (success, some d, false, my)

    -- The message goes on in `my->partial`, or ends there.
    collect : Session W → Bool → List ℕ → Parsed
    unfolding read_plist found
    collect my is_partial rpc =
        let (s, c) = ensure_capacity alloc my.partial (length rpc) in
        elim s [
          | error ↦ (error, none, is_partial, record my { partial = c })
          | success ↦ elim (append c rpc) [
            | none ↦ (error, none, is_partial, record my { faulted = true })
            | some d ↦
                if is_partial
                then (success, none, true, record my { partial = d })
                else found (read_plist d.live) (record my { partial = clear d })
          ]
        ]

    -- From the item under one of the two keys on.
    parse_item : Session W → Bool → Plist → Parsed
    unfolding collect
    parse_item my is_partial wi_rpc = elim (get_data_val wi_rpc) [
      | none ↦ (error, none, is_partial, my)
      | some rpc ↦
          if is_partial || ltb 0 (my.partial.tail - my.partial.head)
          then collect my is_partial rpc
          else found (read_plist rpc) my
    ]

    unfoldable pub parse_plist : Session W → List ℕ → Parsed
    unfolding parse_item
    parse_plist my from_buf =
        let framed : Parsed = elim (from_bin from_buf) [
          | none ↦ (error, none, false, my)
          | some wi_dict ↦ elim (dict_get_item wi_dict final_key) [
            | some wi_rpc ↦ parse_item my false wi_rpc
            | none ↦ elim (dict_get_item wi_dict partial_key) [
              | some wi_rpc ↦ parse_item my true wi_rpc
              | none ↦ (error, none, false, my)
            ]
          ]
        ] in
        if not my.partials_supported then found (from_bin from_buf) my else framed

    -- The end of `wi_recv_packet`; `plist_free` leaves nothing to model.
    dispatch : Parsed → Status × Session W
    dispatch (error, d, is_partial, my) = (error, my)
    dispatch (success, d, true, my) = (success, my)
    dispatch (success, none, false, my) = (success, my)
    dispatch (success, some d, false, my) =
        let (ret, w) = recv_plist my.world d in (ret, record my { world = w })

    -- The body is read at the length of the header: past the end of the packet if that is longer.
    unfoldable pub recv_packet : Session W → List ℕ → Status × Session W
    unfolding dispatch
    recv_packet my packet =
        let (bad, body_length) = parse_length (take 4 packet) in
        let body = take body_length (drop 4 packet) in
        let checked : Status × Session W = elim bad [
          | error ↦ (error, my)
          | success ↦
              if ltb (length packet - 4) body_length
              then (error, record my { faulted = true })
              else dispatch (parse_plist my body)
        ] in
        if ltb (length packet) 4 then (error, my) else checked
