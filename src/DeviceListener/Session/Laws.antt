-- ===== src/DeviceListener/Session/Laws.antt =====
-- `dl_recv_packet`: which packets it acts on, and what it does to the table of device ids.
use ios_webkit_debug_proxy.Prelude.{
  ℕ, ◌≡◌, inl, inr, not, ◌||◌, Option, some, none, List, [], length, drop, ltb, ◌==◌, arith,
  Bool-cases, Option-cases,
}
use ios_webkit_debug_proxy.Prelude.Status.{error}
use ios_webkit_debug_proxy.HashTable.{remove}
use ios_webkit_debug_proxy.HashTable.Keys.{int_keys, int_keys-IsLawful, equal_strings}
use ios_webkit_debug_proxy.HashTable.Table.{IsValid}
use ios_webkit_debug_proxy.HashTable.Ops.{put_lem, remove_lem}
use ios_webkit_debug_proxy.DeviceListener.Wire.{sscanf_uint32}
use ios_webkit_debug_proxy.DeviceListener.Session.{
  XmlApi, Session, Callbacks, result_message, attached_message, detached_message, uint_item,
  string_item, recv_result, recv_attached, recv_detached, recv_message, recv_dict, recv_packet,
  type_plist,
}

module _ (api : XmlApi) {W : Type 0} (calls : Callbacks W) where
  -- The packet of no bytes is refused.
  pub recv_packet-nil : (my : Session W) → (recv_packet api calls my []).0 ≡ error
  unfolding recv_packet
  recv_packet-nil my = ground arith

  module _ (my : Session W) where
    attached-IsValid :
        (dict : api.Plist)
        → IsValid int_keys my.device_ids
        → IsValid int_keys (recv_attached api calls my dict).1.device_ids
    unfolding recv_attached
    attached-IsValid dict valid = elim (Option-cases (api.dict_get_item dict "Properties")) [
      | inl absent ↦ rw (absent, recv_attached) valid
      | inr (props, present) ↦
          rw (present, recv_attached)
            (put_lem int_keys int_keys-IsLawful my.device_ids _ _ valid).1.valid
    ]

    detached-IsValid :
        (dict : api.Plist)
        → IsValid int_keys my.device_ids
        → IsValid int_keys (recv_detached api calls my dict).1.device_ids
    unfolding recv_detached
    detached-IsValid dict valid = elim (Option-cases (api.dict_get_item dict "DeviceID")) [
      | inl absent ↦ rw (absent, recv_detached) valid
      | inr (node, present) ↦
          let n = uint_item api dict "DeviceID" in
          let kept = (remove_lem int_keys int_keys-IsLawful my.device_ids n valid).1.valid in
          elim (Option-cases (remove int_keys my.device_ids n).0) [
            | inl unknown ↦ rw (present, unknown, recv_detached) kept
            | inr (id, known) ↦ rw (present, known, recv_detached) kept
          ]
    ]

    result-same : (dict : api.Plist) → (recv_result api calls my dict).1 ≡ my
    unfolding recv_result
    result-same dict = ground arith

    message-IsValid :
        (dict : api.Plist) (message : List ℕ)
        → IsValid int_keys my.device_ids
        → IsValid int_keys (recv_message api calls my dict message).1.device_ids
    unfolding recv_message
    message-IsValid dict message valid = elim (Bool-cases (equal_strings message result_message)) [
      | inl r ↦ rw (r, result-same dict) valid
      | inr n ↦ elim (Bool-cases (equal_strings message attached_message)) [
        | inl r ↦ rw (n, r) (attached-IsValid dict valid)
        | inr m ↦ elim (Bool-cases (equal_strings message detached_message)) [
          | inl r ↦ rw (n, m, r) (detached-IsValid dict valid)
          | inr k ↦ rw (n, m, k) valid
        ]
      ]
    ]

    recv_dict-IsValid :
        (dict : Option api.Plist)
        → IsValid int_keys my.device_ids
        → IsValid int_keys (recv_dict api calls my dict).1.device_ids
    unfolding recv_dict
    recv_dict-IsValid none valid = valid
    recv_dict-IsValid (some dict) valid = elim (Option-cases (string_item api dict "MessageType")) [
      | inl absent ↦ rw (absent, recv_dict) valid
      | inr (message, present) ↦ rw (present, recv_dict) (message-IsValid dict message valid)
    ]

    -- Whatever packet `dl_recv_packet` is given, the table of device ids stays valid.
    pub recv_packet-IsValid :
        (packet : List ℕ)
        → IsValid int_keys my.device_ids
        → IsValid int_keys (recv_packet api calls my packet).1.device_ids
    unfolding recv_packet
    recv_packet-IsValid packet valid =
        let wrong = not (sscanf_uint32 packet == length packet) || ltb (sscanf_uint32 packet) 16 in
        let ignored =
          not (sscanf_uint32 (drop 4 packet) == 1)
          || not (sscanf_uint32 (drop 8 packet) == type_plist) in
        elim (Bool-cases wrong) [
          | inl bad ↦ rw bad valid
          | inr good ↦ elim (Bool-cases ignored) [
            | inl skip ↦ rw (good, skip) valid
            | inr read ↦ rw (good, read) (recv_dict-IsValid (api.from_xml (drop 16 packet)) valid)
          ]
        ]
