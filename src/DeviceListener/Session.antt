-- ===== src/DeviceListener/Session.antt =====
-- The messages of usbmuxd: `dl_recv_packet`, and the `Listen` request of `dl_start`.
--
-- The XML property lists of libplist are a parameter. A string is the bytes before its NUL. A
-- packet of fewer than 16 bytes is refused, whatever the header's reads find behind its end.
pub mod Laws
pub mod Attach
use Prim.Native.String.{String}
use ios_webkit_debug_proxy.Prelude.{
  ℕ, zero, suc, ◌+◌, ◌-◌, ◌%◌, ◌^◌, Bool, true, false, not, ◌&&◌, ◌||◌, Option, some, none, List,
  [], ◌∷◌, ◌++◌, length, take, drop, ltb, ◌==◌, if◌then◌else◌,
}
use ios_webkit_debug_proxy.Prelude.Status.{Status, success, error}
use ios_webkit_debug_proxy.HashTable.{HashTable, put, remove}
use ios_webkit_debug_proxy.HashTable.Keys.{int_keys, equal_strings}
use ios_webkit_debug_proxy.DeviceListener.Wire.{sprintf_uint32, sscanf_uint32}

-- What `dl_recv_packet` calls of libplist. `none` is a NULL result, or a value that the call leaves
-- as it was because the node is of another type.
pub record XmlApi : Type 1 where
  pub Plist : Type 0
  -- `plist_from_xml`
  pub from_xml : List ℕ → Option Plist
  -- `plist_dict_get_item`
  pub dict_get_item : Plist → String → Option Plist
  -- `plist_get_string_val`
  pub get_string_val : Plist → Option (List ℕ)
  -- `plist_get_uint_val`
  pub get_uint_val : Plist → Option ℕ

-- `TYPE_PLIST`
abbrev pub type_plist : ℕ
type_plist = 8

-- The field `device_num_to_device_id` of `struct dl_private`, and what the callbacks act on.
pub record Session (W : Type 0) : Type 0 where
  pub device_ids : HashTable ℕ (List ℕ)
  pub world : W

-- `on_attach` and `on_detach` of `struct dl_struct`: a device id, which may be NULL for the first,
-- and the device's number as an `int`.
pub record Callbacks (W : Type 0) : Type 0 where
  pub on_attach : W → Option (List ℕ) → ℕ → Status × W
  pub on_detach : W → List ℕ → ℕ → Status × W

-- "Result", "Attached" and "Detached".
abbrev pub result_message : List ℕ
result_message = 82 ∷ 101 ∷ 115 ∷ 117 ∷ 108 ∷ 116 ∷ []

abbrev pub attached_message : List ℕ
attached_message = 65 ∷ 116 ∷ 116 ∷ 97 ∷ 99 ∷ 104 ∷ 101 ∷ 100 ∷ []

abbrev pub detached_message : List ℕ
detached_message = 68 ∷ 101 ∷ 116 ∷ 97 ∷ 99 ∷ 104 ∷ 101 ∷ 100 ∷ []

-- The serial number of 24 digits gets a dash behind the eighth.
unfoldable pub full_device_id : List ℕ → List ℕ
full_device_id device_id =
    if length device_id == 24 then take 8 device_id ++ (45 ∷ drop 8 device_id) else device_id

-- The conversion of a device's number to `int`, as its 32 bits.
abbrev pub int_of : ℕ → ℕ
int_of device_num = device_num % 2 ^ 32

module _ (api : XmlApi) where
  open api use {Plist, dict_get_item, get_string_val, get_uint_val}

  -- A number of a dictionary; 0 if it is not there.
  unfoldable pub uint_item : Plist → String → ℕ
  uint_item dict name = elim (dict_get_item dict name) [
    | none ↦ 0
    | some node ↦ elim (get_uint_val node) [ none ↦ 0 | some value ↦ value ]
  ]

  unfoldable pub string_item : Plist → String → Option (List ℕ)
  string_item dict name = elim (dict_get_item dict name) [
    | none ↦ none
    | some node ↦ get_string_val node
  ]

module _ (api : XmlApi) {W : Type 0} (calls : Callbacks W) where
  open api use {Plist, from_xml, dict_get_item}

  unfoldable pub recv_result : Session W → Plist → Status × Session W
  unfolding uint_item
  recv_result my dict = elim (dict_get_item dict "Number") [
    | none ↦ (error, my)
    | some node ↦ (if uint_item api dict "Number" == 0 then success else error, my)
  ]

  unfoldable pub recv_attached : Session W → Plist → Status × Session W
  unfolding uint_item string_item full_device_id
  recv_attached my dict = elim (dict_get_item dict "Properties") [
    | none ↦ (error, my)
    | some props ↦
        let device_num = uint_item api props "DeviceID" in
        let device_id : Option (List ℕ) = elim (string_item api props "SerialNumber") [
          | none ↦ none
          | some s ↦ some (full_device_id s)
        ] in
        let (old, ids) = put int_keys my.device_ids device_num device_id in
        let (ret, w) = calls.on_attach my.world device_id (int_of device_num) in
        (ret, record { device_ids = ids; world = w })
  ]

  unfoldable pub recv_detached : Session W → Plist → Status × Session W
  unfolding uint_item
  recv_detached my dict = elim (dict_get_item dict "DeviceID") [
    | none ↦ (error, my)
    | some node ↦
        let device_num = uint_item api dict "DeviceID" in
        let (device_id, ids) = remove int_keys my.device_ids device_num in
        elim device_id [
          | none ↦ (error, record my { device_ids = ids })
          | some id ↦
              let (ret, w) = calls.on_detach my.world id (int_of device_num) in
              (ret, record { device_ids = ids; world = w })
        ]
  ]

  unfoldable pub recv_message : Session W → Plist → List ℕ → Status × Session W
  unfolding recv_result recv_attached recv_detached
  recv_message my dict message =
      if equal_strings message result_message
      then recv_result my dict
      else (if equal_strings message attached_message
          then recv_attached my dict
          else (if equal_strings message detached_message
              then recv_detached my dict
              else (error, my)))

  unfoldable pub recv_dict : Session W → Option Plist → Status × Session W
  unfolding string_item recv_message
  recv_dict my none = (error, my)
  recv_dict my (some dict) = elim (string_item api dict "MessageType") [
    | none ↦ (error, my)
    | some message ↦ recv_message my dict message
  ]

  unfoldable pub recv_packet : Session W → List ℕ → Status × Session W
  unfolding recv_dict
  recv_packet my packet =
      let len = sscanf_uint32 packet in
      let version = sscanf_uint32 (drop 4 packet) in
      let type = sscanf_uint32 (drop 8 packet) in
      if not (len == length packet) || ltb len 16
      then (error, my)
      else (if not (version == 1) || not (type == type_plist)
          then (success, my)
          else recv_dict my (from_xml (drop 16 packet)))

-- The packet of `dl_start` for the XML of its request; `length` is a `size_t` and is written as 32
-- bits. `send_packet` is the function pointer of `struct dl_struct`.
unfoldable pub start_packet : List ℕ → List ℕ
start_packet xml =
    sprintf_uint32 ((16 + length xml) % 2 ^ 32)
    ++ (sprintf_uint32 1 ++ (sprintf_uint32 type_plist ++ (sprintf_uint32 1 ++ xml)))
