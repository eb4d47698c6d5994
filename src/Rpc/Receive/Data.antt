-- ===== src/Rpc/Receive/Data.antt =====
-- src/rpc.c: the data that a device sends from the inspector of a page.
use Prim.Native.String.{String}
use ios_webkit_debug_proxy.Prelude.{ℕ, ◌<◌, ◌^◌, ◌≡◌, refl, ◌∙◌, some, List, length}
use ios_webkit_debug_proxy.Rpc.{RpcApi, RpcLaws, required_string}
use ios_webkit_debug_proxy.Rpc.Send.{app_key, message, with_string}
use ios_webkit_debug_proxy.Rpc.Send.Laws.{
  string-set_self, string-set_ne, data-set_self, argument-message, selector-message,
}
use ios_webkit_debug_proxy.Rpc.Receive.{
  Callbacks, recv_application_sent_data, handled, recv_msg, recv_plist,
}

abbrev pub sent_data_selector : String
sent_data_selector = "_rpc_applicationSentData:"

abbrev pub destination_key : String
destination_key = "WIRDestinationKey"

abbrev pub message_data_key : String
message_data_key = "WIRMessageDataKey"

module _ (api : RpcApi) where
  open api use {Plist}

  -- The arguments of a message `_rpc_applicationSentData:`.
  abbrev pub data_args : String → String → List ℕ → Plist
  data_args app_id dest_id b =
      api.dict_set_item
        (with_string api (with_string api api.new_dict app_key app_id) destination_key dest_id)
        message_data_key (api.new_data b)

  module _ (laws : RpcLaws api) (strtol : String → ℕ) {W : Type 0} (calls : Callbacks W) (w : W)
      (app_id dest_id : String) (b : List ℕ) (fits : length b < 2 ^ 32) where
    data_args-handled :
        recv_application_sent_data api strtol calls w (some (data_args app_id dest_id b))
        ≡ calls.on_application_sent_data w app_id dest_id b
    unfolding recv_application_sent_data
    data_args-handled =
        let d₁ = with_string api api.new_dict app_key app_id in
        let d₂ = with_string api d₁ destination_key dest_id in
        rw
          (
            string-set_ne api laws d₂ (api.new_data b) app_key message_data_key refl
                ∙ string-set_ne api laws d₁ (api.new_string dest_id) app_key destination_key refl
                ∙ string-set_self api laws api.new_dict app_id app_key,
            string-set_ne api laws d₂ (api.new_data b) destination_key message_data_key refl
                ∙ string-set_self api laws d₁ dest_id destination_key,
            data-set_self api laws d₂ b message_data_key fits,
            recv_application_sent_data,
          )
          refl

    -- From a dictionary of a selector and arguments, made for an application, a destination and data
    -- of a length below 2 ^ 32, `rpc_recv_plist` calls `on_applicationSentData` with these three, and
    -- reports a failure of it.
    pub recv_plist-data_args :
        let args = data_args app_id dest_id b in
        recv_plist api strtol calls w (some (message api sent_data_selector args))
        ≡ handled api strtol calls
            (calls.on_application_sent_data w app_id dest_id b)
            sent_data_selector
            (some args)
    unfolding recv_plist recv_msg required_string
    recv_plist-data_args =
        let args = data_args app_id dest_id b in
        rw
          (
            selector-message api laws sent_data_selector args,
            argument-message api laws sent_data_selector args,
            data_args-handled,
            recv_plist,
            recv_msg,
          )
          refl
