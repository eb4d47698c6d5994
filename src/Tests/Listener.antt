-- ===== src/Tests/Listener.antt =====
-- src/device_listener.c at concrete packets.
use Prim.Native.Nat.{Ordering}
use Prim.Native.String.{String, compare}
use ios_webkit_debug_proxy.Prelude.{
  ℕ, zero, suc, ◌+◌, ◌≡◌, refl, Bool, true, false, Option, some, none, List, [], ◌∷◌, arith,
}
use ios_webkit_debug_proxy.Prelude.Status.{success}
use ios_webkit_debug_proxy.CharBuffer.{new, null, begin_input, end_input, ensure_capacity, append}
use ios_webkit_debug_proxy.Framing.{Source}
use ios_webkit_debug_proxy.Framing.Packets.{idle}
use ios_webkit_debug_proxy.HashTable as HashTable
use ios_webkit_debug_proxy.HashTable.{HashTable}
use ios_webkit_debug_proxy.HashTable.Keys.{int_keys}
use ios_webkit_debug_proxy.HashTable.Table.{IsValid as IsTable}
use ios_webkit_debug_proxy.HashTable.Laws.{IsUpdate}
use ios_webkit_debug_proxy.HashTable.Ops.{new_lem}
use ios_webkit_debug_proxy.DeviceListener.Reader.{on_recv, recv_loop}
use ios_webkit_debug_proxy.DeviceListener.Session.{
  XmlApi, Session, Callbacks, attached_message, detached_message, full_device_id, int_of, uint_item,
  string_item, recv_packet, start_packet,
}
use ios_webkit_debug_proxy.DeviceListener.Session.Attach.{
  IsAttached, IsDetached, IsDeviceId, attach-detach,
}

-- Nodes of one message each: the XML of one byte is the message's number.
data Node : Type 0 where
  attached detached props number serial name_attached name_detached : Node

abbrev read_node : List ℕ → Option Node
read_node [] = none
read_node (zero ∷ b) = some attached
read_node (suc n ∷ b) = some detached

abbrev is_named : String → String → Bool
is_named j k = elim (compare j k) [ Ordering.eq ↦ true | _ ↦ false ]

abbrev child : Node → String → Option Node
child attached k = elim (is_named k "MessageType") [
  | true ↦ some name_attached
  | false ↦ elim (is_named k "Properties") [ true ↦ some props | false ↦ none ]
]
child detached k = elim (is_named k "MessageType") [
  | true ↦ some name_detached
  | false ↦ elim (is_named k "DeviceID") [ true ↦ some number | false ↦ none ]
]
child props k = elim (is_named k "DeviceID") [
  | true ↦ some number
  | false ↦ elim (is_named k "SerialNumber") [ true ↦ some serial | false ↦ none ]
]
child _ k = none

abbrev device_serial : List ℕ
device_serial =
    1 ∷ 2 ∷ 3 ∷ 4 ∷ 5 ∷ 6 ∷ 7 ∷ 8 ∷ 1 ∷ 2 ∷ 3 ∷ 4 ∷ 5 ∷ 6 ∷ 7 ∷ 8 ∷ 1 ∷ 2 ∷ 3 ∷ 4 ∷ 5 ∷ 6 ∷ 7 ∷ 8
    ∷ []

abbrev string_of : Node → Option (List ℕ)
string_of name_attached = some attached_message
string_of name_detached = some detached_message
string_of serial = some device_serial
string_of _ = none

abbrev number_of : Node → Option ℕ
number_of number = some 5
number_of _ = none

abbrev nodes : XmlApi
nodes = record {
  Plist = Node;
  from_xml = read_node;
  dict_get_item = child;
  get_string_val = string_of;
  get_uint_val = number_of;
}

-- The world is the number of devices.
abbrev counting : Callbacks ℕ
counting = record { on_attach = λ w id n. (success, w + 1); on_detach = λ w id n. (success, 0) }

abbrev empty : HashTable ℕ (List ℕ)
empty = HashTable.new

abbrev start : Session ℕ
start = record { device_ids = empty; world = 0 }

empty-IsTable : IsTable int_keys empty
empty-IsTable = (new_lem int_keys).0

-- Device 5 with a serial number of 24 digits.
five-IsAttached : IsAttached nodes (0 ∷ []) 5 device_serial
unfolding uint_item string_item
five-IsAttached = record {
  dict = attached;
  props = props;
  read = refl;
  message = refl;
  item = refl;
  device_num = refl;
  device_id = refl;
}

five-IsDetached : IsDetached nodes (1 ∷ []) 5
unfolding uint_item string_item
five-IsDetached = record {
  dict = detached;
  node = number;
  read = refl;
  message = refl;
  item = refl;
  device_num = refl;
}

attach-detach_example :
    let id = full_device_id device_serial in
    let attached = recv_packet nodes counting start (start_packet (0 ∷ [])) in
    let detached = recv_packet nodes counting attached.1 (start_packet (1 ∷ [])) in
    let came = counting.on_attach start.world (some id) (int_of 5) in
    let went = counting.on_detach came.1 id (int_of 5) in
    IsDeviceId nodes counting device_serial id
    × ((attached.0 ≡ came.0)
        × (attached.1.world ≡ came.1)
        × IsUpdate int_keys start.device_ids 5 (some id) attached.1.device_ids)
    × ((detached.0 ≡ went.0)
        × (detached.1.world ≡ went.1)
        × IsUpdate int_keys attached.1.device_ids 5 none detached.1.device_ids)
attach-detach_example =
    attach-detach nodes counting start (0 ∷ []) (1 ∷ []) 5 device_serial empty-IsTable
      five-IsAttached five-IsDetached (omega arith) (omega arith)

abbrev always : ℕ → Bool
always n = true

abbrev fresh : Source (Session ℕ)
fresh = record { input = new; reader = idle start }

-- The source after three bytes.
abbrev begun : Source (Session ℕ)
begun = record {
  input = record {
    begin = true;
    head = 0;
    tail = 3;
    end = 1024;
    live = 2 ∷ 0 ∷ 0 ∷ [];
    input = null;
  };
  reader = record { has_length = false; body_length = 0; rest = start };
}

begun_read :
    on_recv (recv_packet nodes counting) always fresh (some (2 ∷ 0 ∷ 0 ∷ []))
    ≡ some (success, begun)
unfolding on_recv recv_loop new begin_input end_input ensure_capacity append
begun_read = refl
