-- ===== src/Plist.antt =====
-- libplist, which the program calls and does not hold: its property lists are a type of their own,
-- and only the calls that src/webinspector.c makes are named. `none` is a NULL result.
use Prim.Native.String.{String}
use ios_webkit_debug_proxy.Prelude.{ℕ, ◌≡◌, ◌≢◌, Option, some, none, List}

pub record PlistApi : Type 1 where
  pub Plist : Type 0
  -- `plist_from_bin`
  pub from_bin : List ℕ → Option Plist
  -- `plist_to_bin`
  pub to_bin : Plist → Option (List ℕ)
  -- `plist_new_data`
  pub new_data : List ℕ → Plist
  -- `plist_get_data_val`
  pub get_data_val : Plist → Option (List ℕ)
  -- `plist_new_dict` and one `plist_dict_set_item`
  pub new_dict_item : String → Plist → Plist
  -- `plist_dict_get_item`
  pub dict_get_item : Plist → String → Option Plist

-- What the documentation of libplist says of these calls.
pub record PlistLaws (api : PlistApi) : Type 0 where
  pub parse-print :
      (p : api.Plist) (bytes : List ℕ) → api.to_bin p ≡ some bytes → api.from_bin bytes ≡ some p
  pub data_val : (bytes : List ℕ) → api.get_data_val (api.new_data bytes) ≡ some bytes
  pub item_self :
      (k : String) (v : api.Plist) → api.dict_get_item (api.new_dict_item k v) k ≡ some v
  pub item_other :
      (j k : String) (v : api.Plist) → j ≢ k → api.dict_get_item (api.new_dict_item k v) j ≡ none
