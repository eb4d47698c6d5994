-- ===== src/Rpc.antt =====
-- src/rpc.c: the messages of the web inspector, and the reading of one item of a dictionary.
--
-- libplist is a parameter. A node is seen by `plist_get_node_type` together with the call that gives
-- the value of a node of this type. A NULL node is `none`, a string is the text before its NUL, and
-- every allocation succeeds. A reader that fails leaves what `to_value` points to as it was, so its
-- result is `none`; the names of the items and the pointers to the results are never NULL.
pub mod Send
pub mod Parse
pub mod Receive
use Prim.Native.String.{String}
use ios_webkit_debug_proxy.Prelude.{
  ℕ, ◌^◌, ◌≡◌, ◌≢◌, Bool, Option, some, none, List, length, ltb, if◌then◌else◌,
}

-- A type of node and its value. The items of a dictionary come in the order of
-- `plist_dict_next_item`, with what it writes to `key` and `value`.
pub data Node (P : Type 0) : Type 0 where
  string : String → Node P
  boolean : Bool → Node P
  uint : ℕ → Node P
  bytes : List ℕ → Node P
  dict : List (Option String × Option P) → Node P
  other : Node P

pub record RpcApi : Type 1 where
  pub Plist : Type 0
  pub node : Plist → Node Plist
  -- `plist_dict_get_item`
  pub dict_get_item : Plist → String → Option Plist
  -- `plist_new_dict` and `plist_dict_set_item`
  pub new_dict : Plist
  pub dict_set_item : Plist → String → Plist → Plist
  -- `plist_new_string`, `plist_new_bool`, `plist_new_uint` and `plist_new_data`
  pub new_string : String → Plist
  pub new_bool : Bool → Plist
  pub new_uint : ℕ → Plist
  pub new_data : List ℕ → Plist
  -- `plist_to_xml`
  pub to_xml : Plist → Option (List ℕ)

-- What the documentation of libplist says of these calls.
pub record RpcLaws (api : RpcApi) : Type 0 where
  pub string_node : (s : String) → api.node (api.new_string s) ≡ string s
  pub bool_node : (b : Bool) → api.node (api.new_bool b) ≡ boolean b
  pub uint_node : (n : ℕ) → api.node (api.new_uint n) ≡ uint n
  pub data_node : (s : List ℕ) → api.node (api.new_data s) ≡ bytes s
  pub item_self :
      (d v : api.Plist) (k : String) → api.dict_get_item (api.dict_set_item d k v) k ≡ some v
  pub item_other :
      (d v : api.Plist) (j k : String)
      → j ≢ k
      → api.dict_get_item (api.dict_set_item d k v) j ≡ api.dict_get_item d j

module _ (api : RpcApi) where
  open api use {Plist, node}

  -- `plist_dict_get_item`, which gives NULL for a NULL node.
  unfoldable pub item : Option Plist → String → Option Plist
  item none key = none
  item (some p) key = api.dict_get_item p key

  -- The value of a node of the wanted type.
  abbrev pub string_of : Option Plist → Option String
  string_of none = none
  string_of (some p) = elim (node p) [ string s ↦ some s | _ ↦ none ]

  abbrev pub bool_of : Option Plist → Option Bool
  bool_of none = none
  bool_of (some p) = elim (node p) [ boolean b ↦ some b | _ ↦ none ]

  -- A number of 64 bits that fits in 32.
  abbrev pub uint_of : Option Plist → Option ℕ
  uint_of none = none
  uint_of (some p) = elim (node p) [ uint n ↦ if ltb n (2 ^ 32) then some n else none | _ ↦ none ]

  abbrev pub data_of : Option Plist → Option (List ℕ)
  data_of none = none
  data_of (some p) = elim (node p) [
    | bytes s ↦ if ltb (length s) (2 ^ 32) then some s else none
    | _ ↦ none
  ]

  unfoldable pub required_string : Option Plist → String → Option String
  unfolding item
  required_string p key = string_of (item p key)

  unfoldable pub required_bool : Option Plist → String → Option Bool
  unfolding item
  required_bool p key = bool_of (item p key)

  unfoldable pub required_uint : Option Plist → String → Option ℕ
  unfolding item
  required_uint p key = uint_of (item p key)

  unfoldable pub required_data : Option Plist → String → Option (List ℕ)
  unfolding item
  required_data p key = data_of (item p key)

  -- An item that is not there leaves the value as it was, NULL or false; this is `some none`.
  unfoldable pub optional_string : Option Plist → String → Option (Option String)
  unfolding item required_string
  optional_string none key = none
  optional_string (some p) key = elim (item (some p) key) [
    | none ↦ some none
    | some v ↦ elim (required_string (some p) key) [ none ↦ none | some s ↦ some (some s) ]
  ]

  unfoldable pub optional_bool : Option Plist → String → Option (Option Bool)
  unfolding item required_bool
  optional_bool none key = none
  optional_bool (some p) key = elim (item (some p) key) [
    | none ↦ some none
    | some v ↦ elim (required_bool (some p) key) [ none ↦ none | some b ↦ some (some b) ]
  ]
