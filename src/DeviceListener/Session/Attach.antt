-- ===== src/DeviceListener/Session/Attach.antt =====
-- `dl_recv_packet` on whole packets: the framing of a message, and a device that comes and goes.
use ios_webkit_debug_proxy.Prelude.{
  ℕ, ◌+◌, ◌%◌, ◌^◌, ◌<◌, ◌≡◌, ◌≢◌, inl, inr, refl, sym, subst, ◌∙◌, true, false, some, none, List,
  ◌++◌, length, take, drop, ltb, ◌==◌, arith, ◌∷◌, Bool-cases, take-append-drop, length-take,
  length-drop,
}
use ios_webkit_debug_proxy.Prelude.Status.{Status}
use ios_webkit_debug_proxy.HashTable.{put, remove}
use ios_webkit_debug_proxy.HashTable.Keys.{int_keys, int_keys-IsLawful, equal_strings}
use ios_webkit_debug_proxy.HashTable.Table.{IsValid}
use ios_webkit_debug_proxy.HashTable.Laws.{IsUpdate}
use ios_webkit_debug_proxy.HashTable.Ops.{put_lem, remove_lem}
use ios_webkit_debug_proxy.DeviceListener.Wire.{sprintf_uint32, sscanf_uint32}
use ios_webkit_debug_proxy.DeviceListener.Wire.Laws.{sscanf_uint32-sprintf_uint32}
use ios_webkit_debug_proxy.DeviceListener.Session.{
  XmlApi, Session, Callbacks, attached_message, detached_message, full_device_id, int_of, uint_item,
  string_item, recv_attached, recv_detached, recv_message, recv_dict, recv_packet, start_packet,
  type_plist,
}

length-sprintf_uint32 :
    (n : ℕ) (more : List ℕ) → length (sprintf_uint32 n ++ more) ≡ 4 + length more
unfolding sprintf_uint32
length-sprintf_uint32 n more = omega arith

after_length :
    (xml : List ℕ)
    → drop 4 (start_packet xml)
      ≡ sprintf_uint32 1 ++ (sprintf_uint32 type_plist ++ (sprintf_uint32 1 ++ xml))
unfolding start_packet sprintf_uint32
after_length xml = refl

after_version :
    (xml : List ℕ)
    → drop 8 (start_packet xml) ≡ sprintf_uint32 type_plist ++ (sprintf_uint32 1 ++ xml)
unfolding start_packet sprintf_uint32
after_version xml = refl

after_tag : (xml : List ℕ) → drop 16 (start_packet xml) ≡ xml
unfolding start_packet sprintf_uint32
after_tag xml = refl

length-start_packet : (xml : List ℕ) → length (start_packet xml) ≡ 16 + length xml
unfolding start_packet sprintf_uint32
length-start_packet xml = omega arith

start_packet-length :
    (xml : List ℕ) → 16 + length xml < 2 ^ 32 → sscanf_uint32 (start_packet xml) ≡ 16 + length xml
unfolding start_packet
start_packet-length xml small = omega (
  arith,
  sscanf_uint32-sprintf_uint32 ((16 + length xml) % 2 ^ 32)
      (sprintf_uint32 1 ++ (sprintf_uint32 type_plist ++ (sprintf_uint32 1 ++ xml))) (omega arith),
)

-- The device number and the serial number of an attached device, as libplist reads the XML.
pub record IsAttached (api : XmlApi) (xml : List ℕ) (num : ℕ) (serial : List ℕ) : Type 0 where
  pub dict : api.Plist
  pub props : api.Plist
  pub read : api.from_xml xml ≡ some dict
  pub message : string_item api dict "MessageType" ≡ some attached_message
  pub item : api.dict_get_item dict "Properties" ≡ some props
  pub device_num : uint_item api props "DeviceID" ≡ num
  pub device_id : string_item api props "SerialNumber" ≡ some serial

-- The device number of a detached device.
pub record IsDetached (api : XmlApi) (xml : List ℕ) (num : ℕ) : Type 0 where
  pub dict : api.Plist
  pub node : api.Plist
  pub read : api.from_xml xml ≡ some dict
  pub message : string_item api dict "MessageType" ≡ some detached_message
  pub item : api.dict_get_item dict "DeviceID" ≡ some node
  pub device_num : uint_item api dict "DeviceID" ≡ num

module _ (api : XmlApi) {W : Type 0} (calls : Callbacks W) where
  -- `dl_recv_packet` takes a packet framed as in `dl_start` for what it holds, if its length fits in
  -- 32 bits: it acts on the message of the XML behind the header.
  pub recv_packet-start_packet :
      (my : Session W) (xml : List ℕ)
      → 16 + length xml < 2 ^ 32
      → recv_packet api calls my (start_packet xml) ≡ recv_dict api calls my (api.from_xml xml)
  unfolding recv_packet
  recv_packet-start_packet my xml small =
      let right : (16 + length xml == 16 + length xml) ≡ true = ground arith in
      let long : ltb (16 + length xml) 16 ≡ false = ground arith in
      let version =
        sscanf_uint32-sprintf_uint32 1 (sprintf_uint32 type_plist ++ (sprintf_uint32 1 ++ xml))
          (omega arith) in
      let type = sscanf_uint32-sprintf_uint32 type_plist (sprintf_uint32 1 ++ xml) (omega arith) in
      rw (
        length-start_packet xml,
        start_packet-length xml small,
        right,
        long,
        after_length xml,
        version,
        after_version xml,
        type,
        after_tag xml,
      )

  attached_message_lem :
      (my : Session W) (xml : List ℕ) (num : ℕ) (serial : List ℕ)
      (a : IsAttached api xml num serial)
      → recv_dict api calls my (api.from_xml xml) ≡ recv_attached api calls my a.dict
  unfolding recv_dict recv_message equal_strings
  attached_message_lem my xml num serial a = rw (a.read, recv_dict) (rw (a.message, recv_dict))

  detached_message_lem :
      (my : Session W) (xml : List ℕ) (num : ℕ) (d : IsDetached api xml num)
      → recv_dict api calls my (api.from_xml xml) ≡ recv_detached api calls my d.dict
  unfolding recv_dict recv_message equal_strings
  detached_message_lem my xml num d = rw (d.read, recv_dict) (rw (d.message, recv_dict))

  recv_attached_lem :
      (my : Session W) (xml : List ℕ) (num : ℕ) (serial : List ℕ)
      (a : IsAttached api xml num serial)
      → let id = full_device_id serial in
        let called = calls.on_attach my.world (some id) (int_of num) in
        recv_attached api calls my a.dict ≡ (
          called.0,
          record { device_ids = (put int_keys my.device_ids num (some id)).1; world = called.1 },
        )
  unfolding recv_attached
  recv_attached_lem my xml num serial a =
      rw (a.item, recv_attached) (rw (a.device_num, a.device_id))

  -- What `dl_recv_packet` makes of a detached device whose number is known.
  abbrev gone : Session W → ℕ → List ℕ → Status × Session W
  gone my num id =
      let called = calls.on_detach my.world id (int_of num) in
      (called.0, record { device_ids = (remove int_keys my.device_ids num).1; world = called.1 })

  recv_detached_lem :
      (my : Session W) (xml : List ℕ) (num : ℕ) (id : List ℕ) (d : IsDetached api xml num)
      → (remove int_keys my.device_ids num).0 ≡ some id
      → recv_detached api calls my d.dict ≡ gone my num id
  unfolding recv_detached
  recv_detached_lem my xml num id d =
      subst
        (λ (n : ℕ).
          (remove int_keys my.device_ids n).0 ≡ some id
          → recv_detached api calls my d.dict ≡ gone my n id)
        d.device_num (λ known. rw (d.item, recv_detached) (rw (known)))

  -- A serial number of 24 digits with a dash behind the eighth, and any other as it is.
  pub data IsDeviceId (serial : List ℕ) : List ℕ → Type 0 where
    dashed :
        (a b : List ℕ)
        → serial ≡ a ++ b
        → length a ≡ 8
        → length b ≡ 16
        → IsDeviceId serial (a ++ (b'-' ∷ b))
    plain : length serial ≢ 24 → IsDeviceId serial serial

  full_device_id-IsDeviceId : (serial : List ℕ) → IsDeviceId serial (full_device_id serial)
  unfolding full_device_id
  full_device_id-IsDeviceId serial = elim (Bool-cases (length serial == 24)) [
    | inl y ↦
        let long : length serial ≡ 24 = ground (arith, y) in
        rw y (
          dashed (take 8 serial) (drop 8 serial) (sym (take-append-drop 8 serial))
            (length-take 8 serial ∙ omega (arith, long))
            (length-drop 8 serial ∙ omega (arith, long)))
    | inr n ↦ rw n (plain (λ e. absurd (ground (arith, n, e))))
  ]

  -- A device that is attached under a number and then detached under it: `on_attach` gets its device
  -- id (24 digits gain a dash behind the eighth); the table, which stays valid, holds the id under the number, and under every
  -- other number what it held; then `on_detach` gets the same id and number, and the table has nothing
  -- under the number any more. The packets' lengths fit in 32 bits.
  pub attach-detach :
      (my : Session W) (xa xd : List ℕ) (num : ℕ) (serial : List ℕ)
      → IsValid int_keys my.device_ids
      → IsAttached api xa num serial
      → IsDetached api xd num
      → 16 + length xa < 2 ^ 32
      → 16 + length xd < 2 ^ 32
      → let id = full_device_id serial in
        let attached = recv_packet api calls my (start_packet xa) in
        let detached = recv_packet api calls attached.1 (start_packet xd) in
        let came = calls.on_attach my.world (some id) (int_of num) in
        let went = calls.on_detach came.1 id (int_of num) in
        IsDeviceId serial id
        × ((attached.0 ≡ came.0)
            × (attached.1.world ≡ came.1)
            × IsUpdate int_keys my.device_ids num (some id) attached.1.device_ids)
        × ((detached.0 ≡ went.0)
            × (detached.1.world ≡ went.1)
            × IsUpdate int_keys attached.1.device_ids num none detached.1.device_ids)
  attach-detach my xa xd num serial valid a d small_a small_d =
      let id = full_device_id serial in
      let came = calls.on_attach my.world (some id) (int_of num) in
      let ids = (put int_keys my.device_ids num (some id)).1 in
      let mine : Session W = record { device_ids = ids; world = came.1 } in
      let stored = (put_lem int_keys int_keys-IsLawful my.device_ids num (some id) valid).1 in
      let (old, dropped) = remove_lem int_keys int_keys-IsLawful ids num stored.valid in
      let first =
        recv_packet-start_packet my xa small_a
        ∙ attached_message_lem my xa num serial a
        ∙ recv_attached_lem my xa num serial a in
      let second =
        recv_packet-start_packet mine xd small_d
        ∙ detached_message_lem mine xd num d
        ∙ recv_detached_lem mine xd num id d (old ∙ stored.here) in
      rw (first, second)
        (full_device_id-IsDeviceId serial, (refl, refl, stored), (refl, refl, dropped))
