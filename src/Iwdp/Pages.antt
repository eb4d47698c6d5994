-- ===== src/Iwdp/Pages.antt =====
-- src/ios_webkit_debug_proxy.c: the applications and pages that an inspector lists.
--
-- `rpc->state` is the inspector, at an address. The arrays end with NULL; `ht_values` and `ht_keys`
-- make a list at the time of the call.
pub mod Drop
pub mod Added
pub mod Listing
use Prim.Native.String.{String}
use ios_webkit_debug_proxy.Prelude.{
  ℕ, ◌+◌, ◌%◌, ◌^◌, ◌&&◌, ◌||◌, not, Bool, true, false, Option, some, none, List, [], ◌∷◌,
  if◌then◌else◌, ◌==◌, equal_texts, any,
}
use ios_webkit_debug_proxy.Prelude.Status.{Status, success, error}
use ios_webkit_debug_proxy.HashTable.{HashTable, get_value, get_key, put, remove, keys, values}
use ios_webkit_debug_proxy.HashTable.Keys.{int_keys}
use ios_webkit_debug_proxy.Rpc.Parse.{App, Page}
use ios_webkit_debug_proxy.Iwdp.{
  Iport, Iwi, Iws, Ipage, Store, Calls, M, pure, ◌>>=◌, ◌>>◌, get_iwi, get_iws, get_ipage, set_iwi,
  set_iws, set_ipage, free_ipage, call, text_keys, update,
}
use ios_webkit_debug_proxy.Iwdp.Devtools.{differ, is_there, stop_devtools}

-- `iwdp_update_string`, as what the pointer is afterwards.
unfoldable pub update_string : Option String → Option String → Option String
update_string (some old) (some new) = if equal_texts old new then some old else some new
update_string (some old) none = none
update_string none new = new

-- `++iwi->max_page_num`
abbrev pub next_num : Iwi → ℕ
next_num iwi = (iwi.max_page_num + 1) % 2 ^ 32

-- Whether another inspector claims a page that a client has here.
abbrev pub is_claimed : Ipage → Page → Iwi → Bool
is_claimed ipage page iwi = is_there ipage.iws && differ iwi.connection_id page.connection_id

abbrev pub is_of_app : String → Ipage → Bool
is_of_app app_id ipage = equal_texts app_id ipage.app_id

-- A page of the application that is not among those listed.
abbrev pub is_gone : String → List Page → Ipage → Bool
is_gone app_id pages ipage =
    equal_texts ipage.app_id app_id && not (any (λ (p : Page). p.page_id == ipage.page_id) pages)

module _ {W : Type 0} where
  -- The client that holds the page is told nothing, but loses it.
  unfoldable pub unlink_client : Option ℕ → M W (Unit {0})
  unlink_client none = pure tt
  unlink_client (some client) = do
    iws ← get_iws client
    set_iws client (record iws { ipage = none })

  -- The first of the pages with this application and this id.
  unfoldable pub find_page : String → ℕ → List ℕ → M W (Option ℕ)
  find_page app_id page_id [] = pure none
  find_page app_id page_id (at ∷ rest) = do
    ipage ← get_ipage at
    if ipage.page_id == page_id && equal_texts app_id ipage.app_id
        then pure (some at)
        else find_page app_id page_id rest

  -- `iwdp_ipage_new`
  unfoldable pub new_ipage : Ipage → M W ℕ
  new_ipage ipage st =
      some
        (st.next, record st { ipages = update st.ipages st.next (some ipage); next = st.next + 1 })

  unfoldable pub found_or_new : ℕ → String → ℕ → Option ℕ → M W ℕ
  unfolding new_ipage
  found_or_new inspector app_id page_id (some at) = pure at
  found_or_new inspector app_id page_id none = do
    iwi ← get_iwi inspector
    at ← new_ipage (record {
      page_num = next_num iwi;
      app_id = app_id;
      page_id = page_id;
      connection_id = none;
      title = none;
      url = none;
      sender_id = none;
      iws = none;
    })
    set_iwi inspector (record iwi {
      max_page_num = next_num iwi;
      page_num_to_ipage = (put int_keys iwi.page_num_to_ipage (next_num iwi) (some at)).1;
    })
    pure at

  unfoldable pub update_page : ℕ → Page → ℕ → M W (Unit {0})
  unfolding unlink_client update_string
  update_page inspector page at = do
    iwi ← get_iwi inspector
    ipage ← get_ipage at
    unlink_client (if is_claimed ipage page iwi then ipage.iws else none)
    set_ipage at (record ipage {
      title = update_string ipage.title page.title;
      url = update_string ipage.url page.url;
      connection_id = update_string ipage.connection_id page.connection_id;
    })

  -- The loop over the listed pages.
  unfoldable pub add_pages : ℕ → String → List ℕ → List Page → M W (Unit {0})
  unfolding find_page found_or_new update_page
  add_pages inspector app_id ipages [] = pure tt
  add_pages inspector app_id ipages (page ∷ pages) = do
    found ← find_page app_id page.page_id ipages
    at ← found_or_new inspector app_id page.page_id found
    update_page inspector page at
    add_pages inspector app_id ipages pages

module _ {W : Type 0} (calls : Calls W) where
  unfoldable pub add_app_id : ℕ → String → M W Status
  unfolding get_value put
  add_app_id inspector app_id = do
    iwi ← get_iwi inspector
    let r = get_value text_keys iwi.app_id_to_true (some app_id)
    let ids = (put text_keys r.1 (some app_id) (some 1)).1
    if is_there r.0
        then (do set_iwi inspector (record iwi { app_id_to_true = r.1 }); pure success)
        else (do
          set_iwi inspector (record iwi { app_id_to_true = ids })
          call (calls.send_forward_get_listing inspector iwi.connection_id app_id))

  -- `rpc_set_app`
  unfoldable pub set_app : ℕ → App → M W (Unit {0})
  set_app inspector app = do
    iwi ← get_iwi inspector
    set_iwi inspector (record iwi { app = some app })

  unfoldable pub on_application_connected : ℕ → App → M W Status
  unfolding set_app add_app_id
  on_application_connected inspector app = do set_app inspector app; add_app_id inspector app.app_id

  -- A page that is listed no more is given up and freed.
  unfoldable pub drop_page : ℕ → ℕ → M W (Unit {0})
  unfolding stop_devtools remove
  drop_page inspector at = do
    stopped ← stop_devtools calls at
    ipage ← get_ipage at
    iwi ← get_iwi inspector
    set_iwi inspector (record iwi {
      page_num_to_ipage = (remove int_keys iwi.page_num_to_ipage ipage.page_num).1;
    })
    free_ipage at

  -- The loops over the pages of the inspector, for the pages to drop.
  unfoldable pub drop_pages : (Ipage → Bool) → ℕ → List ℕ → M W (Unit {0})
  unfolding drop_page
  drop_pages test inspector [] = pure tt
  drop_pages test inspector (at ∷ rest) = do
    ipage ← get_ipage at
    (if test ipage then drop_page inspector at else pure tt)
    drop_pages test inspector rest

  unfoldable pub remove_app_id : ℕ → String → M W Status
  unfolding get_key remove values drop_pages
  remove_app_id inspector app_id = do
    iwi ← get_iwi inspector
    let r = get_key text_keys iwi.app_id_to_true (some app_id)
    let ids = (remove text_keys r.1 (some app_id)).1
    if is_there r.0
        then (do
          set_iwi inspector (record iwi { app_id_to_true = ids })
          drop_pages (is_of_app app_id) inspector (values iwi.page_num_to_ipage)
          pure success)
        else (do set_iwi inspector (record iwi { app_id_to_true = r.1 }); pure success)

  -- `iwdp_on_applicationSentListing`
  unfoldable pub relist : ℕ → String → List Page → List ℕ → M W Status
  unfolding add_pages drop_pages
  relist inspector app_id pages ipages = do
    add_pages inspector app_id ipages pages
    drop_pages (is_gone app_id pages) inspector ipages
    pure success

  unfoldable pub list_unknown : ℕ → Option String → Option App → M W Status
  list_unknown inspector connection_id none = pure error
  list_unknown inspector connection_id (some app) =
      call (calls.send_forward_get_listing inspector connection_id app.app_id)

  unfoldable pub on_application_sent_listing : ℕ → String → List Page → M W Status
  unfolding get_value values relist list_unknown
  on_application_sent_listing inspector app_id pages = do
    iwi ← get_iwi inspector
    let r = get_value text_keys iwi.app_id_to_true (some app_id)
    if is_there iwi.iport
        then (do
          set_iwi inspector (record iwi { app_id_to_true = r.1 })
          if is_there r.0
              then relist inspector app_id pages (values iwi.page_num_to_ipage)
              else list_unknown inspector iwi.connection_id iwi.app)
        else pure error

  -- The loops of `iwdp_on_reportConnectedApplicationList`: the applications that are gone, and those
  -- that are there. A NULL id is never among the keys.
  unfoldable pub remove_old : ℕ → List App → List (Option String) → M W (Unit {0})
  unfolding remove_app_id
  remove_old inspector apps [] = pure tt
  remove_old inspector apps (none ∷ rest) = remove_old inspector apps rest
  remove_old inspector apps (some id ∷ rest) = do
    removed ←
        (if any (λ (a : App). equal_texts a.app_id id) apps
          then pure success
          else remove_app_id inspector id)
    remove_old inspector apps rest

  unfoldable pub add_new : ℕ → List App → M W (Unit {0})
  unfolding set_app add_app_id
  add_new inspector [] = pure tt
  add_new inspector (app ∷ apps) = do
    set_app inspector app
    added ← add_app_id inspector app.app_id
    add_new inspector apps

  unfoldable pub on_report_connected_application_list : ℕ → List App → M W Status
  unfolding keys remove_old add_new
  on_report_connected_application_list inspector [] = do
    iwi ← get_iwi inspector
    set_iwi inspector (record iwi { connected = true })
    pure success
  on_report_connected_application_list inspector (app ∷ apps) = do
    iwi ← get_iwi inspector
    set_iwi inspector (record iwi { connected = true })
    remove_old inspector (app ∷ apps) (keys iwi.app_id_to_true)
    add_new inspector (app ∷ apps)
    pure success
