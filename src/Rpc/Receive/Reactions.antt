-- ===== src/Rpc/Receive/Reactions.antt =====
-- src/rpc.c: what each message asks for, apart from how `rpc_recv_plist` finds it out.
use Prim.Native.String.{String}
use ios_webkit_debug_proxy.Prelude.{
  ℕ, ◌≡◌, ◌≢◌, ◌⊎◌, inl, inr, true, false, Bool-cases, Option, some, none, Option-cases, List, ◌∷◌,
  [],
}
use ios_webkit_debug_proxy.Prelude.Status.{Status, success, error}
use ios_webkit_debug_proxy.Rpc.{RpcApi, item, required_string, required_data}
use ios_webkit_debug_proxy.Rpc.Parse.{App, Page, parse_app, parse_apps, parse_pages}
use ios_webkit_debug_proxy.Rpc.Receive.{
  xml_failed, invalid_message, Callbacks, recv_report_setup, recv_report_connected_application_list,
  recv_application_connected, recv_application_disconnected, recv_application_sent_listing,
  recv_application_sent_data, recv_application_updated, updated, is_dict,
}
use ios_webkit_debug_proxy.Rpc.Receive.Trim.{trim}

module _ (api : RpcApi) (strtol : String → ℕ) {W : Type 0} (calls : Callbacks W) where
  open api use {Plist}

  -- A selector that is not known, or arguments without what its message needs.
  pub data Refused (args : Option Plist) (s : String) : Type 0 where
    not_dict : s ≡ "_rpc_reportSetup:" → is_dict api args ≡ false → Refused args s
    no_apps :
        s ≡ "_rpc_reportConnectedApplicationList:"
        → parse_apps api (item api args "WIRApplicationDictionaryKey") ≡ none
        → Refused args s
    no_app :
        (s ≡ "_rpc_applicationConnected:") ⊎ (s ≡ "_rpc_applicationDisconnected:")
        → parse_app api args ≡ none
        → Refused args s
    no_listing :
        s ≡ "_rpc_applicationSentListing:"
        → (required_string api args "WIRApplicationIdentifierKey" ≡ none)
          ⊎ (parse_pages api strtol (item api args "WIRListingKey") ≡ none)
        → Refused args s
    no_data :
        s ≡ "_rpc_applicationSentData:"
        → (required_string api args "WIRApplicationIdentifierKey" ≡ none)
          ⊎ ((required_string api args "WIRDestinationKey" ≡ none)
              ⊎ (required_data api args "WIRMessageDataKey" ≡ none))
        → Refused args s
    no_ids :
        s ≡ "_rpc_applicationUpdated:"
        → (required_string api args "WIRApplicationIdentifierKey" ≡ none)
          ⊎ ((required_string api args "WIRHostApplicationIdentifierKey" ≡ none)
              × (required_string api args "WIRApplicationNameKey" ≡ none))
        → Refused args s
    unknown :
        s ≢ "_rpc_reportSetup:"
        → s ≢ "_rpc_reportConnectedApplicationList:"
        → s ≢ "_rpc_applicationConnected:"
        → s ≢ "_rpc_applicationDisconnected:"
        → s ≢ "_rpc_applicationSentListing:"
        → s ≢ "_rpc_applicationSentData:"
        → s ≢ "_rpc_applicationUpdated:"
        → s ≢ "_rpc_reportConnectedDriverList:"
        → s ≢ "_rpc_reportCurrentState:"
        → Refused args s

  -- The one callback that a message asks for, called once; or none, for a message that is ignored or
  -- refused.
  pub data Reaction (w : W) (args : Option Plist) (s : String) : Status × W → Type 0 where
    setup :
        s ≡ "_rpc_reportSetup:"
        → is_dict api args ≡ true
        → Reaction w args s (calls.on_report_setup w)
    app_list :
        (apps : List App)
        → s ≡ "_rpc_reportConnectedApplicationList:"
        → parse_apps api (item api args "WIRApplicationDictionaryKey") ≡ some apps
        → Reaction w args s (calls.on_report_connected_application_list w apps)
    connected :
        (app : App)
        → s ≡ "_rpc_applicationConnected:"
        → parse_app api args ≡ some app
        → Reaction w args s (calls.on_application_connected w app)
    disconnected :
        (app : App)
        → s ≡ "_rpc_applicationDisconnected:"
        → parse_app api args ≡ some app
        → Reaction w args s (calls.on_application_disconnected w app)
    listing :
        (app_id : String) (pages : List Page)
        → s ≡ "_rpc_applicationSentListing:"
        → required_string api args "WIRApplicationIdentifierKey" ≡ some app_id
        → parse_pages api strtol (item api args "WIRListingKey") ≡ some pages
        → Reaction w args s (calls.on_application_sent_listing w app_id pages)
    sent :
        (app_id dest_id : String) (b : List ℕ)
        → s ≡ "_rpc_applicationSentData:"
        → required_string api args "WIRApplicationIdentifierKey" ≡ some app_id
        → required_string api args "WIRDestinationKey" ≡ some dest_id
        → required_data api args "WIRMessageDataKey" ≡ some b
        → Reaction w args s (calls.on_application_sent_data w app_id dest_id b)
    update :
        (app_id dest_id : String)
        → s ≡ "_rpc_applicationUpdated:"
        → (required_string api args "WIRHostApplicationIdentifierKey" ≡ some app_id)
          ⊎ ((required_string api args "WIRHostApplicationIdentifierKey" ≡ none)
              × (required_string api args "WIRApplicationNameKey" ≡ some app_id))
        → required_string api args "WIRApplicationIdentifierKey" ≡ some dest_id
        → Reaction w args s (calls.on_application_updated w app_id dest_id)
    ignored :
        (s ≡ "_rpc_reportConnectedDriverList:") ⊎ (s ≡ "_rpc_reportCurrentState:")
        → Reaction w args s (success, w)
    refused : Refused args s → Reaction w args s (error, w)

  -- The report of a failure: the selector and the trimmed XML of the arguments; where they print to
  -- nothing, an error of its own before it.
  pub data Reported (w : W) (args : Option Plist) (s : String) : W → Type 0 where
    no_args : args ≡ none → Reported w args s (calls.print_error w (invalid_message s none))
    with_xml :
        (p : Plist) (c : ℕ) (cs : List ℕ)
        → args ≡ some p
        → api.to_xml p ≡ some (c ∷ cs)
        → Reported w args s (calls.print_error w (invalid_message s (some (trim (c ∷ cs)))))
    no_xml :
        (p : Plist) (xml : Option (List ℕ))
        → args ≡ some p
        → (xml ≡ none) ⊎ (xml ≡ some [])
        → api.to_xml p ≡ xml
        → Reported w args s
            (calls.print_error (calls.print_error w xml_failed) (invalid_message s xml))

  module _ (w : W) (args : Option Plist) (s : String) where
    pub setup-Reaction :
        s ≡ "_rpc_reportSetup:" → Reaction w args s (recv_report_setup api strtol calls w args)
    unfolding recv_report_setup
    setup-Reaction is = elim (Bool-cases (is_dict api args)) [
      | inl y ↦ rw y (setup is y)
      | inr n ↦ rw n (refused (not_dict is n))
    ]

    pub app_list-Reaction :
        s ≡ "_rpc_reportConnectedApplicationList:"
        → Reaction w args s (recv_report_connected_application_list api strtol calls w args)
    unfolding recv_report_connected_application_list
    app_list-Reaction is =
        elim (Option-cases (parse_apps api (item api args "WIRApplicationDictionaryKey"))) [
          | inl n ↦ rw (n, recv_report_connected_application_list) (refused (no_apps is n))
          | inr (apps, y) ↦ rw (y, recv_report_connected_application_list) (app_list apps is y)
        ]

    pub connected-Reaction :
        s ≡ "_rpc_applicationConnected:"
        → Reaction w args s (recv_application_connected api strtol calls w args)
    unfolding recv_application_connected
    connected-Reaction is = elim (Option-cases (parse_app api args)) [
      | inl n ↦ rw (n, recv_application_connected) (refused (no_app (inl is) n))
      | inr (app, y) ↦ rw (y, recv_application_connected) (connected app is y)
    ]

    pub disconnected-Reaction :
        s ≡ "_rpc_applicationDisconnected:"
        → Reaction w args s (recv_application_disconnected api strtol calls w args)
    unfolding recv_application_disconnected
    disconnected-Reaction is = elim (Option-cases (parse_app api args)) [
      | inl n ↦ rw (n, recv_application_disconnected) (refused (no_app (inr is) n))
      | inr (app, y) ↦ rw (y, recv_application_disconnected) (disconnected app is y)
    ]

    pub listing-Reaction :
        s ≡ "_rpc_applicationSentListing:"
        → Reaction w args s (recv_application_sent_listing api strtol calls w args)
    unfolding recv_application_sent_listing
    listing-Reaction is =
        elim (Option-cases (required_string api args "WIRApplicationIdentifierKey")) [
          | inl n ↦ rw (n, recv_application_sent_listing) (refused (no_listing is (inl n)))
          | inr (app_id, y) ↦
              elim (Option-cases (parse_pages api strtol (item api args "WIRListingKey"))) [
                | inl n ↦ rw (y, n, recv_application_sent_listing) (refused (no_listing is (inr n)))
                | inr (pages, p) ↦
                    rw (y, p, recv_application_sent_listing) (listing app_id pages is y p)
              ]
        ]

    pub sent-Reaction :
        s ≡ "_rpc_applicationSentData:"
        → Reaction w args s (recv_application_sent_data api strtol calls w args)
    unfolding recv_application_sent_data
    sent-Reaction is =
        elim (Option-cases (required_string api args "WIRApplicationIdentifierKey")) [
          | inl n ↦ rw (n, recv_application_sent_data) (refused (no_data is (inl n)))
          | inr (app_id, y) ↦ elim (Option-cases (required_string api args "WIRDestinationKey")) [
            | inl n ↦ rw (y, n, recv_application_sent_data) (refused (no_data is (inr (inl n))))
            | inr (dest_id, d) ↦ elim (Option-cases (required_data api args "WIRMessageDataKey")) [
              | inl n ↦
                  rw (y, d, n, recv_application_sent_data) (refused (no_data is (inr (inr n))))
              | inr (b, m) ↦
                  rw (y, d, m, recv_application_sent_data) (sent app_id dest_id b is y d m)
            ]
          ]
        ]

    updated-Reaction :
        (app_id : String)
        → s ≡ "_rpc_applicationUpdated:"
        → (required_string api args "WIRHostApplicationIdentifierKey" ≡ some app_id)
          ⊎ ((required_string api args "WIRHostApplicationIdentifierKey" ≡ none)
              × (required_string api args "WIRApplicationNameKey" ≡ some app_id))
        → Reaction w args s (updated api strtol calls w args app_id)
    updated-Reaction app_id is host =
        elim (Option-cases (required_string api args "WIRApplicationIdentifierKey")) [
          | inl n ↦ rw (n, updated) (refused (no_ids is (inl n)))
          | inr (dest_id, y) ↦ rw (y, updated) (update app_id dest_id is host y)
        ]

    pub application_updated-Reaction :
        s ≡ "_rpc_applicationUpdated:"
        → Reaction w args s (recv_application_updated api strtol calls w args)
    unfolding recv_application_updated
    application_updated-Reaction is =
        elim (Option-cases (required_string api args "WIRHostApplicationIdentifierKey")) [
          | inr (app_id, y) ↦ rw (y, recv_application_updated) (updated-Reaction app_id is (inl y))
          | inl n ↦ elim (Option-cases (required_string api args "WIRApplicationNameKey")) [
            | inl m ↦ rw (n, m, recv_application_updated) (refused (no_ids is (inr (n, m))))
            | inr (name, y) ↦
                rw (n, y, recv_application_updated) (updated-Reaction name is (inr (n, y)))
          ]
        ]
