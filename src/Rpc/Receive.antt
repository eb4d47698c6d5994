-- ===== src/Rpc/Receive.antt =====
-- src/rpc.c: the messages from the device.
--
-- `print_error` is what `rpc_on_error` prints. The callbacks of `struct rpc_struct` take no pointer
-- to the strings and lists that they are given beyond their call.
pub mod Trim
pub mod Reactions
pub mod Laws
pub mod Data
use Prim.Native.String.{String}
use ios_webkit_debug_proxy.Prelude.{
  ℕ, Bool, ◌||◌, Option, some, none, List, [], ◌∷◌, equal_texts, if◌then◌else◌,
}
use ios_webkit_debug_proxy.Prelude.Status.{Status, success, error}
use ios_webkit_debug_proxy.Rpc.{Node, dict, RpcApi, item, string_of, required_string, required_data}
use ios_webkit_debug_proxy.Rpc.Parse.{App, Page, parse_app, parse_apps, parse_pages}
use ios_webkit_debug_proxy.Rpc.Receive.Trim.{trim}

-- The two errors that src/rpc.c reports. The XML of the arguments may be NULL.
pub data ErrorText : Type 0 where
  xml_failed : ErrorText
  invalid_message : String → Option (List ℕ) → ErrorText

-- The callbacks of `struct rpc_struct`, and the output of `rpc_on_error`.
pub record Callbacks (W : Type 0) : Type 0 where
  pub on_report_setup : W → Status × W
  pub on_report_connected_application_list : W → List App → Status × W
  pub on_application_connected : W → App → Status × W
  pub on_application_disconnected : W → App → Status × W
  pub on_application_sent_listing : W → String → List Page → Status × W
  pub on_application_sent_data : W → String → String → List ℕ → Status × W
  pub on_application_updated : W → String → String → Status × W
  pub print_error : W → ErrorText → W

module _ (api : RpcApi) where
  open api use {Plist, node}

  -- Whether `plist_get_node_type` answers `PLIST_DICT`.
  abbrev pub is_dict : Option Plist → Bool
  is_dict none = Bool.false
  is_dict (some p) = elim (node p) [ dict items ↦ Bool.true | _ ↦ Bool.false ]

module _ (api : RpcApi) (strtol : String → ℕ) {W : Type 0} (calls : Callbacks W) where
  open api use {Plist}

  abbrev pub on_error : W → ErrorText → Status × W
  on_error w text = (error, calls.print_error w text)

  unfoldable pub recv_report_setup : W → Option Plist → Status × W
  recv_report_setup w args = if is_dict api args then calls.on_report_setup w else (error, w)

  unfoldable pub recv_report_connected_application_list : W → Option Plist → Status × W
  unfolding item parse_apps
  recv_report_connected_application_list w args =
      elim (parse_apps api (item api args "WIRApplicationDictionaryKey")) [
        | none ↦ (error, w)
        | some apps ↦ calls.on_report_connected_application_list w apps
      ]

  unfoldable pub recv_application_connected : W → Option Plist → Status × W
  unfolding parse_app
  recv_application_connected w args = elim (parse_app api args) [
    | none ↦ (error, w)
    | some app ↦ calls.on_application_connected w app
  ]

  unfoldable pub recv_application_disconnected : W → Option Plist → Status × W
  unfolding parse_app
  recv_application_disconnected w args = elim (parse_app api args) [
    | none ↦ (error, w)
    | some app ↦ calls.on_application_disconnected w app
  ]

  unfoldable pub recv_application_sent_listing : W → Option Plist → Status × W
  unfolding item required_string parse_pages
  recv_application_sent_listing w args =
      elim (required_string api args "WIRApplicationIdentifierKey") [
        | none ↦ (error, w)
        | some app_id ↦ elim (parse_pages api strtol (item api args "WIRListingKey")) [
          | none ↦ (error, w)
          | some pages ↦ calls.on_application_sent_listing w app_id pages
        ]
      ]

  unfoldable pub recv_application_sent_data : W → Option Plist → Status × W
  unfolding required_string required_data
  recv_application_sent_data w args =
      elim (required_string api args "WIRApplicationIdentifierKey") [
        | none ↦ (error, w)
        | some app_id ↦ elim (required_string api args "WIRDestinationKey") [
          | none ↦ (error, w)
          | some dest_id ↦ elim (required_data api args "WIRMessageDataKey") [
            | none ↦ (error, w)
            | some b ↦ calls.on_application_sent_data w app_id dest_id b
          ]
        ]
      ]

  -- `on_applicationUpdated` with `app_id` and the identifier of the application.
  abbrev pub updated : W → Option Plist → String → Status × W
  updated w args app_id = elim (required_string api args "WIRApplicationIdentifierKey") [
    | none ↦ (error, w)
    | some dest_id ↦ calls.on_application_updated w app_id dest_id
  ]

  unfoldable pub recv_application_updated : W → Option Plist → Status × W
  unfolding required_string
  recv_application_updated w args =
      elim (required_string api args "WIRHostApplicationIdentifierKey") [
        | some app_id ↦ updated w args app_id
        | none ↦ elim (required_string api args "WIRApplicationNameKey") [
          | none ↦ (error, w)
          | some app_id ↦ updated w args app_id
        ]
      ]

  -- With `should_trim`: the XML, NULL if there are no arguments or nothing is printed.
  unfoldable pub args_to_xml : W → Option Plist → (Status × Option (List ℕ)) × W
  unfolding trim
  args_to_xml w none = ((error, none), w)
  args_to_xml w (some args) = elim (api.to_xml args) [
    | none ↦ ((error, none), calls.print_error w xml_failed)
    | some [] ↦ ((error, some []), calls.print_error w xml_failed)
    | some (c ∷ cs) ↦ ((success, some (trim (c ∷ cs))), w)
  ]

  -- The end of `rpc_recv_msg`.
  unfoldable pub reject : W → String → Option Plist → Status × W
  unfolding args_to_xml
  reject w selector args =
      let ((s, xml), w') = args_to_xml w args in on_error w' (invalid_message selector xml)

  -- What a handler answers: a failure is reported.
  abbrev pub handled : Status × W → String → Option Plist → Status × W
  handled (success, w) selector args = (success, w)
  handled (error, w) selector args = reject w selector args

  unfoldable pub recv_msg : W → Option String → Option Plist → Status × W
  unfolding recv_report_setup recv_report_connected_application_list recv_application_connected
      recv_application_disconnected recv_application_sent_listing recv_application_sent_data
      recv_application_updated reject
  recv_msg w none args = (error, w)
  recv_msg w (some selector) args =
      if equal_texts selector "_rpc_reportSetup:"
      then handled (recv_report_setup w args) selector args
      else (if equal_texts selector "_rpc_reportConnectedApplicationList:"
          then handled (recv_report_connected_application_list w args) selector args
          else (if equal_texts selector "_rpc_applicationConnected:"
              then handled (recv_application_connected w args) selector args
              else (if equal_texts selector "_rpc_applicationDisconnected:"
                  then handled (recv_application_disconnected w args) selector args
                  else (if equal_texts selector "_rpc_applicationSentListing:"
                      then handled (recv_application_sent_listing w args) selector args
                      else (if equal_texts selector "_rpc_applicationSentData:"
                          then handled (recv_application_sent_data w args) selector args
                          else (if equal_texts selector "_rpc_applicationUpdated:"
                              then handled (recv_application_updated w args) selector args
                              else (if equal_texts selector "_rpc_reportConnectedDriverList:"
                                    || equal_texts selector "_rpc_reportCurrentState:"
                                  then (success, w)
                                  else reject w selector args)))))))

  unfoldable pub recv_plist : W → Option Plist → Status × W
  unfolding item recv_msg
  recv_plist w rpc_dict =
      recv_msg w (string_of api (item api rpc_dict "__selector")) (item api rpc_dict "__argument")
