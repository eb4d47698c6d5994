-- ===== src/Rpc/Send.antt =====
-- src/rpc.c: the messages to the device. A NULL pointer among the arguments is `none`.
pub mod Laws
use Prim.Native.String.{String}
use ios_webkit_debug_proxy.Prelude.{ℕ, Bool, false, Option, some, none, List}
use ios_webkit_debug_proxy.Prelude.Status.{Status, success, error}
use ios_webkit_debug_proxy.Rpc.{RpcApi}

abbrev pub selector_key : String
selector_key = "__selector"

abbrev pub argument_key : String
argument_key = "__argument"

abbrev pub data_selector : String
data_selector = "_rpc_forwardSocketData:"

abbrev pub connection_key : String
connection_key = "WIRConnectionIdentifierKey"

abbrev pub app_key : String
app_key = "WIRApplicationIdentifierKey"

abbrev pub page_key : String
page_key = "WIRPageIdentifierKey"

abbrev pub sender_key : String
sender_key = "WIRSenderKey"

abbrev pub data_key : String
data_key = "WIRSocketDataKey"

abbrev pub enabled_key : String
enabled_key = "WIRIndicateEnabledKey"

abbrev pub pause_key : String
pause_key = "WIRAutomaticallyPause"

module _ (api : RpcApi) where
  open api use {Plist, dict_set_item, new_dict, new_string, new_uint, new_bool, new_data}

  unfoldable pub new_args : Option String → Plist
  new_args none = new_dict
  new_args (some connection_id) = dict_set_item new_dict connection_key (new_string connection_id)

  -- The dictionary of `rpc_send_msg`.
  abbrev pub message : String → Plist → Plist
  message selector args =
      dict_set_item (dict_set_item new_dict selector_key (new_string selector)) argument_key args

  -- The items that several messages have.
  abbrev pub with_string : Plist → String → String → Plist
  with_string args key s = dict_set_item args key (new_string s)

  abbrev pub with_page : Plist → ℕ → Plist
  with_page args page_id = dict_set_item args page_key (new_uint page_id)

  module _ {W : Type 0} (send_plist : W → Plist → Status × W) where
    unfoldable pub send_msg : W → Option String → Option Plist → Status × W
    send_msg w (some selector) (some args) = send_plist w (message selector args)
    send_msg w _ _ = (error, w)

    unfoldable pub send_report_identifier : W → Option String → Status × W
    unfolding new_args send_msg
    send_report_identifier w none = (error, w)
    send_report_identifier w (some connection_id) =
        send_msg w (some "_rpc_reportIdentifier:") (some (new_args (some connection_id)))

    unfoldable pub send_get_connected_applications : W → Option String → Status × W
    unfolding new_args send_msg
    send_get_connected_applications w none = (error, w)
    send_get_connected_applications w (some connection_id) =
        send_msg w (some "_rpc_getConnectedApplications:") (some (new_args (some connection_id)))

    unfoldable pub send_forward_get_listing : W → Option String → Option String → Status × W
    unfolding new_args send_msg
    send_forward_get_listing w (some connection_id) (some app_id) =
        let args = with_string (new_args (some connection_id)) app_key app_id in
        send_msg w (some "_rpc_forwardGetListing:") (some args)
    send_forward_get_listing w _ _ = (error, w)

    unfoldable pub send_forward_indicate_web_view :
        W → Option String → Option String → ℕ → Bool → Status × W
    unfolding new_args send_msg
    send_forward_indicate_web_view w (some connection_id) (some app_id) page_id is_enabled =
        let args = with_string (new_args (some connection_id)) app_key app_id in
        let args = dict_set_item (with_page args page_id) enabled_key (new_bool is_enabled) in
        send_msg w (some "_rpc_forwardIndicateWebView:") (some args)
    send_forward_indicate_web_view w _ _ page_id is_enabled = (error, w)

    unfoldable pub send_forward_socket_setup :
        W → Option String → Option String → ℕ → Option String → Status × W
    unfolding new_args send_msg
    send_forward_socket_setup w (some connection_id) (some app_id) page_id (some sender_id) =
        let args = with_string (new_args (some connection_id)) app_key app_id in
        let args = with_page (dict_set_item args pause_key (new_bool false)) page_id in
        send_msg w (some "_rpc_forwardSocketSetup:") (some (with_string args sender_key sender_id))
    send_forward_socket_setup w _ _ page_id _ = (error, w)

    -- The data come with their length.
    unfoldable pub send_forward_socket_data :
        W → Option String → Option String → ℕ → Option String → Option (List ℕ) → Status × W
    unfolding new_args send_msg
    send_forward_socket_data w (some connection_id) (some app_id) page_id (some sender_id)
          (some b) =
        let args = with_string (new_args (some connection_id)) app_key app_id in
        let args = with_string (with_page args page_id) sender_key sender_id in
        send_msg w (some data_selector) (some (dict_set_item args data_key (new_data b)))
    send_forward_socket_data w _ _ page_id _ _ = (error, w)

    unfoldable pub send_forward_did_close :
        W → Option String → Option String → ℕ → Option String → Status × W
    unfolding new_args send_msg
    send_forward_did_close w (some connection_id) (some app_id) page_id (some sender_id) =
        let args = with_page (with_string (new_args (some connection_id)) app_key app_id) page_id in
        send_msg w (some "_rpc_forwardDidClose:") (some (with_string args sender_key sender_id))
    send_forward_did_close w _ _ page_id _ = (error, w)
