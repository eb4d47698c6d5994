-- ===== src/Tests/Proxy.antt =====
-- src/ios_webkit_debug_proxy.c at concrete objects: one port, its inspector, a client and a page.
use Prim.Native.String.{String}
use ios_webkit_debug_proxy.Prelude.{
  ℕ, ◌+◌, ◌≡◌, ◌≢◌, ◌⊎◌, inl, inr, refl, sym, ap, subst, ◌∙◌, true, false, Option, some, none, List,
  [], ◌∷◌, arith, codes,
}
use ios_webkit_debug_proxy.Prelude.Status.{Status, success, error}
use ios_webkit_debug_proxy.HashTable.{HashTable, new, put, values}
use ios_webkit_debug_proxy.HashTable.Keys.{on_strhash}
use ios_webkit_debug_proxy.HashTable.Table.{view, IsValid}
use ios_webkit_debug_proxy.HashTable.Ops.{new_lem, put_lem}
use ios_webkit_debug_proxy.Rpc.Parse.{Page}
use ios_webkit_debug_proxy.Iwdp.{
  Iport, Iwi, Iws, Ipage, Store, Calls, ◌>>=◌, update, text_keys, text_keys-IsLawful,
}
use ios_webkit_debug_proxy.Iwdp.Devtools.{start_devtools, iws_close}
use ios_webkit_debug_proxy.Iwdp.Devtools.Sound.{
  Returns, IsHeld, Registered, IsSound, update_ne, update-cases,
}
use ios_webkit_debug_proxy.Iwdp.Devtools.Start.{IsStarted, start_devtools-IsSound}
use ios_webkit_debug_proxy.Iwdp.Devtools.Close.{iws_close-IsSound}
use ios_webkit_debug_proxy.Iwdp.Devtools.Dangling.{iws_close-dangling}
use ios_webkit_debug_proxy.Iwdp.Pages.{on_application_sent_listing, remove_app_id}
use ios_webkit_debug_proxy.Iwdp.Pages.Drop.{IsKept, remove_app_id-IsSound}
use ios_webkit_debug_proxy.Iwdp.Pages.Listing.{on_application_sent_listing-IsSound}
use ios_webkit_debug_proxy.Iwdp.Frames.{on_frame, on_application_sent_data}
use ios_webkit_debug_proxy.Iwdp.Frames.Laws.{Called, on_frame-page, on_application_sent_data-client}

-- Every call succeeds and is counted.
abbrev counting : Calls ℕ
counting = record {
  send_forward_get_listing = λ i c a w. (success, w + 1);
  send_forward_socket_setup = λ i c a p s w. (success, w + 1);
  send_forward_socket_data = λ i c a p s b w. (success, w + 1);
  send_forward_did_close = λ i c a p s w. (success, w + 1);
  send_frame = λ c f o m b w. (success, w + 1);
  send_close = λ c o r w. (success, w + 1);
}

ids : HashTable (Option String) ℕ
unfolding new put
ids = (put text_keys new (some "a") (some 5)).1

abbrev port : Iport
port = record {
  port = 9222;
  is_sticky = true;
  ws_id_to_iws = ids;
  device_id = some "phone";
  device_name = some "phone";
  iwi = some 2;
}

abbrev inspector : Iwi
inspector = record {
  iport = some 1;
  connection_id = some "here";
  app = none;
  connected = true;
  max_page_num = 1;
  app_id_to_true = (put text_keys new (some "app") (some 1)).1;
  page_num_to_ipage = record {
    num_keys = 1;
    buckets = [] ∷ (record { hc = 1; key = 1; value = 3 } ∷ []) ∷ [] ∷ [];
  };
}

abbrev client_with : Option ℕ → Iws
client_with ipage = record { iport = 1; ws_id = "a"; page_num = 1; ipage = ipage }

abbrev page_with : Option ℕ → Option String → Ipage
page_with iws sender_id = record {
  page_num = 1;
  app_id = "app";
  page_id = 7;
  connection_id = none;
  title = none;
  url = none;
  sender_id = sender_id;
  iws = iws;
}

abbrev store : Iws → Ipage → Store ℕ
store client page = record {
  iports = update (λ p. none) 1 (some port);
  iwis = update (λ p. none) 2 (some inspector);
  iwss = update (λ p. none) 5 (some client);
  ipages = update (λ p. none) 3 (some page);
  next = 4;
  world = 0;
}

ids_lem : IsValid text_keys ids × (view text_keys ids (some "a") ≡ some 5)
unfolding ids
ids_lem =
    let (old, updated) =
      put_lem text_keys text_keys-IsLawful new (some "a") (some 5) (new_lem text_keys).0 in
    (updated.valid, updated.here)

store-IsSound :
    (o : Option ℕ) (page : Ipage)
    → ((at : ℕ) → o ≡ some at → (at ≡ 3) × IsHeld page 5 (client_with o))
    → ((c : ℕ) → page.iws ≡ some c → c ≡ 5)
    → IsSound (store (client_with o) page)
store-IsSound o page held holder = record {
  linked = λ client at iws live holds.
      elim (update-cases (λ p. none) 5 (client_with o) client iws live) [
        | inl (e, is_client) ↦
            let (is_page, link) = held at (ap (λ c. c.ipage) is_client ∙ holds) in
            (page, rw is_page refl, rw e (subst (IsHeld page 5) is_client link))
        | inr (ne, bad) ↦ cc bad
      ];
  registered = λ client iws live.
      elim (update-cases (λ p. none) 5 (client_with o) client iws live) [
        | inl (e, is_client) ↦
            let there : Registered (store (client_with o) page).iports 5 (client_with o) =
              (port, refl, ids_lem.1) in
            rw e (subst (Registered (store (client_with o) page).iports 5) is_client there)
        | inr (ne, bad) ↦ cc bad
      ];
  valid = λ p iport found. elim (update-cases (λ p. none) 1 port p iport found) [
    | inl (e, is_port) ↦ subst (λ i. IsValid text_keys i.ws_id_to_iws) is_port ids_lem.0
    | inr (ne, bad) ↦ cc bad
  ];
  holder_live = λ at client ipage found is_holder.
      elim (update-cases (λ p. none) 3 page at ipage found) [
        | inl (e, is_page) ↦
            (client_with o, rw (holder client (ap (λ p. p.iws) is_page ∙ is_holder)) refl)
        | inr (ne, bad) ↦ cc bad
      ];
  inspector_live = λ p i iport found is_iwi. elim (update-cases (λ p. none) 1 port p iport found) [
    | inl (e, is_port) ↦
        let same : 2 ≡ i = cc (is_iwi, ap (λ q. q.iwi) is_port) in (inspector, rw (← same) refl)
    | inr (ne, bad) ↦ cc bad
  ];
  unused =
      λ at behind. update_ne (λ p. none) 3 (some page) at (λ e. absurd (omega (arith, e, behind)));
}

-- The client has no page, has the page, and has lost it to another inspector.
abbrev idle : Store ℕ
idle = store (client_with none) (page_with none none)

abbrev inspecting : Store ℕ
inspecting = store (client_with (some 3)) (page_with (some 5) (some "a"))

abbrev claimed : Store ℕ
claimed = store (client_with none) (page_with (some 5) (some "a"))

idle-IsSound : IsSound idle
idle-IsSound = store-IsSound none (page_with none none) (λ at e. cc e) (λ c e. cc e)

inspecting-IsSound : IsSound inspecting
inspecting-IsSound =
    store-IsSound (some 3) (page_with (some 5) (some "a"))
      (λ at e. (cc e, record { owner = refl; sender = refl })) (λ c e. cc e)

claimed-IsSound : IsSound claimed
claimed-IsSound = store-IsSound none (page_with (some 5) (some "a")) (λ at e. cc e) (λ c e. cc e)

start_devtools-IsSound_example : Returns (start_devtools counting (some 3) (some 5) idle) (λ r st'.
    ((port.iwi ≡ none) × (r ≡ error) × (st' ≡ idle)) ⊎ ((port.iwi ≢ none) × IsStarted 5 3 st'))
start_devtools-IsSound_example =
    start_devtools-IsSound counting idle 3 5 (client_with none) port idle-IsSound
      (page_with none none, refl) refl refl
      (λ i iwi is_iwi live e.
        let same : iwi ≡ inspector =
          cc (live, ap (λ o. idle.iwis o) (let two : i ≡ 2 = cc is_iwi in two)) in
        cc (e, ap (λ (w : Iwi). w.iport) same))

iws_close-IsSound_example :
    Returns
      (iws_close counting 5 inspecting)
      (λ r st'. (r ≡ success) × IsSound st' × (st'.iwss 5 ≡ none))
iws_close-IsSound_example =
    iws_close-IsSound counting inspecting 5 (client_with (some 3)) inspecting-IsSound refl
      (λ q page found is_holder.
        elim (update-cases (λ p. none) 3 (page_with (some 5) (some "a")) q page found) [
          | inl (e, is_page) ↦ ap some (sym e)
          | inr (ne, bad) ↦ cc bad
        ])

iws_close-dangling_example : Returns (iws_close counting 5 claimed) (λ r st'.
    (r ≡ success)
    × ((next i : ℕ) (other : Iws) (iport : Iport) (iwi : Iwi)
        → st'.iwss next ≡ some other
        → st'.iports other.iport ≡ some iport
        → iport.iwi ≡ some i
        → st'.iwis i ≡ some iwi
        → start_devtools counting (some 3) (some next) st' ≡ none))
iws_close-dangling_example =
    iws_close-dangling counting claimed 5 3 (client_with none) (page_with (some 5) (some "a"))
      claimed-IsSound refl refl refl refl

remove_app_id-IsSound_example :
    Returns
      (remove_app_id counting 2 "app" inspecting)
      (λ r st'. (r ≡ success) × IsKept inspecting st')
unfolding values
remove_app_id-IsSound_example =
    remove_app_id-IsSound counting inspecting 2 inspector "app" inspecting-IsSound refl
      ((page_with (some 5) (some "a"), refl), tt, tt)

-- The page is listed as that of another inspector.
abbrev listed : List Page
listed = record { page_id = 7; connection_id = some "there"; title = some "t"; url = some "u" } ∷ []

on_application_sent_listing-IsSound_example :
    Returns
      (on_application_sent_listing counting 2 "app" listed inspecting)
      (λ r st'. IsKept inspecting st')
unfolding values
on_application_sent_listing-IsSound_example =
    on_application_sent_listing-IsSound counting inspecting 2 inspector "app" listed
      inspecting-IsSound refl ((page_with (some 5) (some "a"), refl), tt, tt)

on_frame-page_example :
    (page : Ipage) × (inspecting.ipages 3 ≡ some page)
    × Returns (on_frame counting 5 true 1 true (codes "{}") true inspecting) (
        Called counting
          (counting.send_forward_socket_data 2
            (some "here")
            page.app_id
            page.page_id
            (some "a")
            (codes "{}"))
          true
          inspecting)
on_frame-page_example =
    on_frame-page counting inspecting 5 3 2 1 (client_with (some 3)) port inspector (codes "{}")
      true inspecting-IsSound refl refl refl refl refl (inl refl)

on_application_sent_data-client_example :
    Returns (on_application_sent_data counting 2 "a" (codes "{}") inspecting) (λ r st'.
      ((r, st'.world) ≡ counting.send_frame 5 true 1 false (codes "{}") inspecting.world)
      × IsSound st')
on_application_sent_data-client_example =
    on_application_sent_data-client counting inspecting 5 2 (client_with (some 3)) inspector
      (codes "{}") inspecting-IsSound refl refl refl

-- A page that a client inspects is claimed, and the client goes; the next client faults.
abbrev lost : Option (Status × Store ℕ)
lost =
    (do
      a ← start_devtools counting (some 3) (some 5)
      b ← on_application_sent_listing counting 2 "app" listed
      iws_close counting 5)
      idle

abbrev again : Option (Status × Store ℕ)
again = elim lost [
  | none ↦ some (error, idle)
  | some (r, st) ↦
      start_devtools counting (some 3) (some 6)
        (record st { iwss = update st.iwss 6 (some (client_with none)) })
]

again_faults : again ≡ none
unfolding start_devtools on_application_sent_listing iws_close ids on_strhash
again_faults = refl
