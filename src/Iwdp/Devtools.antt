-- ===== src/Iwdp/Devtools.antt =====
-- src/ios_webkit_debug_proxy.c: which client inspects which page.
pub mod Sound
pub mod Released
pub mod Stop
pub mod Start
pub mod Close
pub mod Dangling
use Prim.Native.String.{String}
use ios_webkit_debug_proxy.Prelude.{
  ℕ, ◌&&◌, ◌||◌, not, ltb, leb, Bool, true, false, Option, some, none, if◌then◌else◌, ◌==◌,
}
use ios_webkit_debug_proxy.Prelude.Status.{Status, success, error}
use ios_webkit_debug_proxy.HashTable.{get_value, put, remove}
use ios_webkit_debug_proxy.HashTable.Keys.{int_keys}
use ios_webkit_debug_proxy.Iwdp.{
  Iport, Iwi, Iws, Ipage, Store, Calls, M, pure, fault, ◌>>=◌, ◌>>◌, get_iport, get_iwi, get_iws,
  get_ipage, set_iport, set_iwi, set_iws, set_ipage, free_iws, call, is_pointer, same_text,
  text_keys,
}

abbrev pub is_there {ℓ} : {A : Type ℓ} → Option A → Bool
is_there none = false
is_there (some a) = true

-- Whether both are there and differ.
abbrev pub differ : Option String → Option String → Bool
differ (some s) (some t) = not (same_text (some s) (some t))
differ _ _ = false

-- Whether the inspector is told that a page is given up.
abbrev pub is_ours : Option String → Option String → Bool
is_ours (some ours) none = true
is_ours (some ours) (some theirs) = same_text (some theirs) (some ours)
is_ours none theirs = false

-- A message is logged with the port of `iwi->iport`, if a page is taken from another client or
-- another inspector.
abbrev pub logs_port : Iwi → Ipage → Bool
logs_port iwi ipage = is_there ipage.iws || differ ipage.connection_id iwi.connection_id

module _ {W : Type 0} where
  -- `ht_get_value` on `ws_id_to_iws`
  unfoldable pub find_iws : ℕ → Iport → Option String → M W (Option ℕ)
  unfolding get_value
  find_iws at iport ws_id =
      let r = get_value text_keys iport.ws_id_to_iws ws_id in
      do set_iport at (record iport { ws_id_to_iws = r.1 }); pure r.0

  -- `ht_get_value` on `page_num_to_ipage`
  unfoldable pub find_ipage : ℕ → Iwi → ℕ → M W (Option ℕ)
  unfolding get_value
  find_ipage at iwi page_num =
      let r = get_value int_keys iwi.page_num_to_ipage page_num in
      do set_iwi at (record iwi { page_num_to_ipage = r.1 }); pure r.0

  -- The page of a number that `strtol` may have read.
  unfoldable pub requested_ipage : Option ℕ → Option ℕ → M W (Option ℕ)
  unfolding find_ipage
  requested_ipage none page_num = pure none
  requested_ipage (some inspector) none = pure none
  requested_ipage (some inspector) (some n) = do
    iwi ← get_iwi inspector
    if ltb 0 n && leb n iwi.max_page_num then find_ipage inspector iwi n else pure none

  -- The client leaves the table of its port, if it is found there.
  unfoldable pub forget_iws : ℕ → Iws → M W (Unit {0})
  unfolding find_iws remove
  forget_iws client iws = do
    iport ← get_iport iws.iport
    iws2 ← find_iws iws.iport iport (some iws.ws_id)
    now ← get_iport iws.iport
    let ids = (remove text_keys now.ws_id_to_iws (some iws.ws_id)).1
    if is_pointer iws2 client
        then set_iport iws.iport (record now { ws_id_to_iws = ids })
        else pure tt

module _ {W : Type 0} (calls : Calls W) where
  unfoldable pub send_did_close : Option ℕ → Ipage → M W Status
  send_did_close none ipage = pure success
  send_did_close (some at) ipage = do
    iwi ← get_iwi at
    if is_ours iwi.connection_id ipage.connection_id
        then call (
            calls.send_forward_did_close at iwi.connection_id ipage.app_id ipage.page_id
              ipage.sender_id)
        else pure success

  -- `iws` holds the page at `at`, and is found under its sender id.
  unfoldable pub give_up : ℕ → Ipage → ℕ → Iws → Iport → M W Status
  unfolding send_did_close
  give_up at ipage client iws iport = do
    told ← send_did_close iport.iwi ipage
    set_iws client (record iws { ipage = none; page_num = 0 })
    set_ipage at (record ipage { iws = none; sender_id = none })
    pure success

  -- For the page's `sender_id`.
  unfoldable pub stop_client : Option String → ℕ → Ipage → ℕ → Iws → M W Status
  unfolding find_iws give_up
  stop_client none at ipage client iws = pure error
  stop_client (some sender_id) at ipage client iws = do
    iport ← get_iport iws.iport
    iws2 ← find_iws iws.iport iport (some sender_id)
    if is_pointer iws2 client then give_up at ipage client iws iport else pure error

  -- For the page's `iws`.
  unfoldable pub stop_held : Option ℕ → ℕ → Ipage → M W Status
  unfolding stop_client
  stop_held none at ipage = pure success
  stop_held (some client) at ipage = do
    iws ← get_iws client
    if is_pointer iws.ipage at then stop_client ipage.sender_id at ipage client iws else pure error

  unfoldable pub stop_devtools : ℕ → M W Status
  unfolding stop_held
  stop_devtools at = do ipage ← get_ipage at; stop_held ipage.iws at ipage

  -- The client that holds the page loses it, and keeps its number.
  unfoldable pub steal : Option ℕ → ℕ → M W (Unit {0})
  unfolding stop_devtools
  steal none at = pure tt
  steal (some old) at = do
    held ← get_iws old
    stopped ← stop_devtools at
    iws2 ← get_iws old
    now ← get_ipage at
    set_iws old (record iws2 { page_num = now.page_num })

  unfoldable pub take_page : ℕ → ℕ → ℕ → Iwi → M W Status
  take_page at client inspector iwi = do
    ipage ← get_ipage at
    iws ← get_iws client
    set_iws client (record iws { ipage = some at; page_num = ipage.page_num })
    set_ipage at (record ipage { iws = some client; sender_id = some iws.ws_id })
    call (
        calls.send_forward_socket_setup inspector iwi.connection_id ipage.app_id ipage.page_id
          (some iws.ws_id))

  unfoldable pub start_page : Option ℕ → ℕ → ℕ → M W Status
  unfolding steal take_page
  start_page none at client = pure error
  start_page (some inspector) at client = do
    iwi ← get_iwi inspector
    ipage ← get_ipage at
    if logs_port iwi ipage && not (is_there iwi.iport)
        then fault
        else do steal ipage.iws at; take_page at client inspector iwi

  unfoldable pub start_devtools : Option ℕ → Option ℕ → M W Status
  unfolding start_page
  start_devtools (some at) (some client) = do
    iws ← get_iws client
    iport ← get_iport iws.iport
    start_page iport.iwi at client
  start_devtools _ _ = pure error

  -- `iwdp_on_devtools_request`, for the number that the resource ends with, or `none` if it does not
  -- end with one; `not_found` sends the answer for an unknown page.
  unfoldable pub on_devtools_request : M W Status → ℕ → Option ℕ → M W Status
  unfolding start_devtools requested_ipage
  on_devtools_request not_found client page_num = do
    iws ← get_iws client
    iport ← get_iport iws.iport
    found ← requested_ipage iport.iwi page_num
    elim found [ none ↦ not_found | some at ↦ start_devtools (some at) (some client) ]

  -- `iwdp_iws_close`, for a client that serves no file.
  unfoldable pub stop_own : ℕ → Option ℕ → M W (Unit {0})
  unfolding stop_devtools
  stop_own client none = pure tt
  stop_own client (some at) = do
    ipage ← get_ipage at
    if is_there ipage.sender_id && is_pointer ipage.iws client
        then (do stopped ← stop_devtools at; pure tt)
        else pure tt

  unfoldable pub iws_close : ℕ → M W Status
  unfolding stop_own forget_iws
  iws_close client = do
    iws ← get_iws client
    stop_own client iws.ipage
    forget_iws client iws
    free_iws client
    pure success
