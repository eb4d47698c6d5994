-- ===== src/Rpc/Parse.antt =====
-- src/rpc.c: applications and pages, as the device lists them.
pub mod Laws
use Prim.Native.String.{String}
use mathlib.Core.Option.{get_or}
use ios_webkit_debug_proxy.Prelude.{
  ℕ, Bool, true, false, Option, some, none, List, [], ◌∷◌, ◌==◌, equal_texts, if◌then◌else◌,
}
use ios_webkit_debug_proxy.Rpc.{
  Node, dict, RpcApi, required_string, required_uint, optional_string, optional_bool,
}

-- `struct rpc_app_struct`. A name that is not given is NULL.
pub record App : Type 0 where
  pub app_id : String
  pub app_name : Option String
  pub is_proxy : Bool

-- `struct rpc_page_struct`
pub record Page : Type 0 where
  pub page_id : ℕ
  pub connection_id : Option String
  pub title : Option String
  pub url : Option String

-- The tests of `rpc_parse_apps` and `rpc_parse_pages`.
abbrev pub is_key_of_app : String → App → Bool
is_key_of_app key app = equal_texts key app.app_id

abbrev pub is_key_of_page : (String → ℕ) → String → Page → Bool
is_key_of_page strtol key page = page.page_id == strtol key

module _ (api : RpcApi) where
  open api use {Plist, node}

  unfoldable pub parse_app : Option Plist → Option App
  unfolding required_string optional_string optional_bool
  parse_app p = elim (required_string api p "WIRApplicationIdentifierKey") [
    | none ↦ none
    | some app_id ↦ elim (optional_string api p "WIRApplicationNameKey") [
      | none ↦ none
      | some app_name ↦ elim (optional_bool api p "WIRIsApplicationProxyKey") [
        | none ↦ none
        | some is_proxy ↦
            some (record { app_id = app_id; app_name = app_name; is_proxy = get_or is_proxy false })
      ]
    ]
  ]

  unfoldable pub parse_page : Option Plist → Option Page
  unfolding required_uint optional_string
  parse_page p = elim (required_uint api p "WIRPageIdentifierKey") [
    | none ↦ none
    | some page_id ↦ elim (optional_string api p "WIRConnectionIdentifierKey") [
      | none ↦ none
      | some connection_id ↦ elim (optional_string api p "WIRTitleKey") [
        | none ↦ none
        | some title ↦ elim (optional_string api p "WIRURLKey") [
          | none ↦ none
          | some url ↦ some (record {
            page_id = page_id;
            connection_id = connection_id;
            title = title;
            url = url;
          })
        ]
      ]
    ]
  ]

  -- The body of a loop over the items of a dictionary: the item has a key, is parsed, and what comes
  -- of it goes with the key.
  abbrev pub parse_item :
      {A : Type 0}
      → (Option Plist → Option A)
      → (String → A → Bool)
      → Option String
      → Option Plist
      → Option A
  parse_item parse agrees none value = none
  parse_item parse agrees (some key) value = elim (parse value) [
    | none ↦ none
    | some a ↦ if agrees key a then some a else none
  ]

  -- The loop, up to the first item that is not right.
  unfoldable pub parse_items :
      {A : Type 0}
      → (Option Plist → Option A)
      → (String → A → Bool)
      → List (Option String × Option Plist)
      → Option (List A)
  parse_items parse agrees [] = some []
  parse_items parse agrees ((key, value) ∷ items) =
      let rest = parse_items parse agrees items in
      elim (parse_item parse agrees key value) [
        | none ↦ none
        | some a ↦ elim rest [ none ↦ none | some parsed ↦ some (a ∷ parsed) ]
      ]

  unfoldable pub parse_dict :
      {A : Type 0}
      → (Option Plist → Option A)
      → (String → A → Bool)
      → Option Plist
      → Option (List A)
  unfolding parse_items
  parse_dict parse agrees none = none
  parse_dict parse agrees (some p) = elim (node p) [
    | dict items ↦ parse_items parse agrees items
    | _ ↦ none
  ]

  unfoldable pub parse_apps : Option Plist → Option (List App)
  unfolding parse_dict parse_app
  parse_apps p = parse_dict parse_app is_key_of_app p

  -- `strtol` with the base 0; a `long` is given as its 64 bits.
  unfoldable pub parse_pages : (String → ℕ) → Option Plist → Option (List Page)
  unfolding parse_dict parse_page
  parse_pages strtol p = parse_dict parse_page (is_key_of_page strtol) p
