-- ===== src/Iwdp/Frames.antt =====
-- src/ios_webkit_debug_proxy.c: what is passed on between clients and inspectors.
--
-- `*to_keep` is an argument, as the caller has set it, and comes back with the status.
pub mod Laws
use Prim.Native.String.{String}
use ios_webkit_debug_proxy.Prelude.{
  ℕ, ◌||◌, not, Bool, true, false, Option, some, none, List, if◌then◌else◌, ◌==◌,
}
use ios_webkit_debug_proxy.Prelude.Status.{Status, success, error}
use ios_webkit_debug_proxy.HashTable.{get_value}
use ios_webkit_debug_proxy.Iwdp.{
  Iport, Iwi, Iws, Ipage, Store, Calls, Reason, no_reason, clients_must_mask, inspector_closed,
  page_not_found, page_claimed, M, pure, fault, ◌>>=◌, ◌>>◌, get_iport, get_iwi, get_iws, get_ipage,
  call,
}
use ios_webkit_debug_proxy.Iwdp.Devtools.{is_there, find_iws, find_ipage}

abbrev pub close_normal : ℕ
close_normal = 1000

abbrev pub close_going_away : ℕ
close_going_away = 1001

abbrev pub close_protocol_error : ℕ
close_protocol_error = 1002

module _ {W : Type 0} (calls : Calls W) where
  -- The reason for a client whose page is `none`.
  unfoldable pub lost_reason : ℕ → ℕ → Option ℕ → M W Reason
  lost_reason port page_num none = pure (page_not_found port page_num)
  lost_reason port page_num (some at) = do
    ipage ← get_ipage at
    pure (page_claimed port page_num (is_there ipage.iws))

  unfoldable pub on_lost_page : ℕ → Iws → Iport → ℕ → Iwi → M W Status
  unfolding find_ipage lost_reason
  on_lost_page client iws iport inspector iwi = do
    found ← (if iws.page_num == 0 then pure none else find_ipage inspector iwi iws.page_num)
    reason ← lost_reason iport.port iws.page_num found
    call (calls.send_close client close_going_away reason)

  unfoldable pub forward_data : ℕ → Iwi → ℕ → List ℕ → M W Status
  forward_data inspector iwi at payload = do
    ipage ← get_ipage at
    call (
        calls.send_forward_socket_data inspector iwi.connection_id ipage.app_id ipage.page_id
          ipage.sender_id payload)

  -- For the page of the client and the inspector of its port.
  unfoldable pub on_page_data : ℕ → Iws → Iport → List ℕ → Option ℕ → Option ℕ → M W Status
  unfolding on_lost_page forward_data
  on_page_data client iws iport payload none ipage =
      call (calls.send_close client close_going_away inspector_closed)
  on_page_data client iws iport payload (some inspector) none = do
    iwi ← get_iwi inspector
    on_lost_page client iws iport inspector iwi
  on_page_data client iws iport payload (some inspector) (some at) = do
    iwi ← get_iwi inspector
    forward_data inspector iwi at payload

  unfoldable pub on_data_frame : ℕ → Bool → List ℕ → M W Status
  unfolding on_page_data
  on_data_frame client is_masking payload = do
    iws ← get_iws client
    if not is_masking
        then call (calls.send_close client close_protocol_error clients_must_mask)
        else (do
          iport ← get_iport iws.iport
          on_page_data client iws iport payload iport.iwi iws.ipage)

  abbrev pub keeping : Bool → M W Status → M W (Status × Bool)
  keeping to_keep m = do status ← m; pure (status, to_keep)

  -- `iwdp_on_frame`
  unfoldable pub on_frame : ℕ → Bool → ℕ → Bool → List ℕ → Bool → M W (Status × Bool)
  unfolding on_data_frame
  on_frame client is_fin opcode is_masking payload to_keep =
      if opcode == 1 || opcode == 2
      then (if is_fin
          then keeping to_keep (on_data_frame client is_masking payload)
          else keeping true (pure success))
      else (if opcode == 8
          then keeping to_keep (call (calls.send_close client close_normal no_reason))
          else (if opcode == 9
              then keeping to_keep (call (calls.send_frame client true 10 false payload))
              else (if opcode == 10
                  then keeping to_keep (pure success)
                  else keeping to_keep (pure error))))

  unfoldable pub send_to : Option ℕ → List ℕ → M W Status
  send_to none bytes = pure success
  send_to (some client) bytes = call (calls.send_frame client true 1 false bytes)

  unfoldable pub send_data_on : Option ℕ → String → List ℕ → M W Status
  unfolding find_iws send_to
  send_data_on none dest_id bytes = fault
  send_data_on (some at) dest_id bytes = do
    iport ← get_iport at
    client ← find_iws at iport (some dest_id)
    send_to client bytes

  -- `iwdp_on_applicationSentData`
  unfoldable pub on_application_sent_data : ℕ → String → List ℕ → M W Status
  unfolding send_data_on
  on_application_sent_data inspector dest_id bytes = do
    iwi ← get_iwi inspector
    send_data_on iwi.iport dest_id bytes
