-- ===== src/Iwdp/Frames/Laws.antt =====
-- src/ios_webkit_debug_proxy.c: the data of a client go to its page, and the answers to the client.
use Prim.Native.String.{String}
use ios_webkit_debug_proxy.Prelude.{
  ℕ, ◌≡◌, ◌⊎◌, refl, sym, ap, subst, ◌∙◌, Bool, true, false, ◌||◌, Option, some, List, ◌==◌, arith,
}
use ios_webkit_debug_proxy.Prelude.Status.{Status}
use ios_webkit_debug_proxy.HashTable.Ops.{get_value_lem}
use ios_webkit_debug_proxy.Iwdp.{
  Iport, Iwi, Iws, Ipage, Store, Calls, ◌>>=◌, text_keys, text_keys-IsLawful,
}
use ios_webkit_debug_proxy.Iwdp.Devtools.{find_iws}
use ios_webkit_debug_proxy.Iwdp.Devtools.Sound.{Returns, IsSound}
use ios_webkit_debug_proxy.Iwdp.Devtools.Sound.Writes.{set_world-IsSound}
use ios_webkit_debug_proxy.Iwdp.Devtools.Released.{searched, searched-IsSound}
use ios_webkit_debug_proxy.Iwdp.Frames.{
  forward_data, on_page_data, on_data_frame, on_frame, send_to, send_data_on,
  on_application_sent_data,
}

module _ {W : Type 0} (calls : Calls W) where
  -- The outcome of one call.
  abbrev pub after_call : (W → Status × W) → Store W → Option (Status × Store W)
  after_call f st = some ((f st.world).0, record st { world = (f st.world).1 })

  forward_data_lem :
      (st : Store W) (inspector at : ℕ) (iwi : Iwi) (page : Ipage) (ws_id : String)
      (payload : List ℕ)
      → st.ipages at ≡ some page
      → page.sender_id ≡ some ws_id
      → forward_data calls inspector iwi at payload st
        ≡ after_call
            (calls.send_forward_socket_data inspector iwi.connection_id page.app_id page.page_id
              (some ws_id)
              payload)
            st
  unfolding forward_data
  forward_data_lem st inspector at iwi page ws_id payload page_at sender =
      rw (◌>>=◌, page_at)
        (ap
          (λ s.
            after_call
              (calls.send_forward_socket_data inspector iwi.connection_id page.app_id page.page_id s
                payload)
              st)
          sender)

  on_page_data_lem :
      (st : Store W) (client inspector at : ℕ) (iws : Iws) (iport : Iport) (iwi : Iwi)
      (payload : List ℕ) (o p : Option ℕ)
      → o ≡ some inspector
      → p ≡ some at
      → st.iwis inspector ≡ some iwi
      → on_page_data calls client iws iport payload o p st
        ≡ forward_data calls inspector iwi at payload st
  unfolding on_page_data
  on_page_data_lem st client inspector at iws iport iwi payload o p inspected has_page iwi_at =
      ap (λ o. on_page_data calls client iws iport payload o p st) inspected
      ∙ ap (λ p. on_page_data calls client iws iport payload (some inspector) p st) has_page
      ∙ rw (◌>>=◌, iwi_at) refl

  -- What `on_frame` ends with when it has made one call.
  abbrev pub Called : (W → Status × W) → Bool → Store W → Status × Bool → Store W → Type 0
  Called f to_keep st r st' =
      (r ≡ ((f st.world).0, to_keep)) × (st' ≡ record st { world = (f st.world).1 })

  -- On sound links, for a live client that has a page, on a port with a live inspector: a final,
  -- masked text or binary frame is passed on, in one call, to this page of the inspector's
  -- application, with the client's own id as its sender; no object is
  -- changed, and `to_keep` stays what the caller made it.
  pub on_frame-page :
      (st : Store W) (client at inspector opcode : ℕ) (iws : Iws) (iport : Iport) (iwi : Iwi)
      (payload : List ℕ) (to_keep : Bool)
      → IsSound st
      → st.iwss client ≡ some iws
      → iws.ipage ≡ some at
      → st.iports iws.iport ≡ some iport
      → iport.iwi ≡ some inspector
      → st.iwis inspector ≡ some iwi
      → (opcode ≡ 1) ⊎ (opcode ≡ 2)
      → (page : Ipage) × (st.ipages at ≡ some page)
        × Returns (on_frame calls client true opcode true payload to_keep st) (
            Called
              (calls.send_forward_socket_data inspector iwi.connection_id page.app_id page.page_id
                (some iws.ws_id)
                payload)
              to_keep
              st)
  unfolding on_frame on_data_frame
  on_frame-page st client at inspector opcode iws iport iwi payload to_keep h client_at has_page
        port_at inspected iwi_at is_data =
      let (page, page_at, held) = h.linked client at iws client_at has_page in
      let data_code : (opcode == 1 || opcode == 2) ≡ true = ground (arith, is_data) in
      (
        page,
        page_at,
        rw
            (
              data_code,
              ◌>>=◌,
              client_at,
              port_at,
              on_page_data_lem st client inspector at iws iport iwi payload iport.iwi iws.ipage
                  inspected has_page iwi_at,
              forward_data_lem st inspector at iwi page iws.ws_id payload page_at held.sender,
            )
            (refl, refl),
      )

  -- On sound links, for a live client and an inspector of its port: data for the client's id are
  -- sent to this client, in one final text frame, and the links stay sound.
  pub on_application_sent_data-client :
      (st : Store W) (client inspector : ℕ) (iws : Iws) (iwi : Iwi) (bytes : List ℕ)
      → IsSound st
      → st.iwss client ≡ some iws
      → st.iwis inspector ≡ some iwi
      → iwi.iport ≡ some iws.iport
      → Returns (on_application_sent_data calls inspector iws.ws_id bytes st) (λ r st'.
        ((r, st'.world) ≡ calls.send_frame client true 1 false bytes st.world) × IsSound st')
  unfolding on_application_sent_data send_data_on find_iws send_to
  on_application_sent_data-client st client inspector iws iwi bytes h client_at iwi_at owned =
      let (iport, port_at, there) = h.registered client iws client_at in
      let id = some iws.ws_id in
      let valid = h.valid iws.iport iport port_at in
      let (answer, found) =
        get_value_lem text_keys text_keys-IsLawful iport.ws_id_to_iws id valid in
      let st1 = searched st iws.iport iport id in
      let h1 = searched-IsSound st iws.iport iport id h port_at in
      let run : send_data_on calls (some iws.iport) iws.ws_id bytes st
          ≡ after_call (calls.send_frame client true 1 false bytes) st1 =
        rw (◌>>=◌, port_at, answer ∙ there) refl in
      rw (Returns, ◌>>=◌, iwi_at)
        (subst
          (λ o. Returns o (λ r st'.
            ((r, st'.world) ≡ calls.send_frame client true 1 false bytes st.world) × IsSound st'))
          (sym (ap (λ o. send_data_on calls o iws.ws_id bytes st) owned ∙ run))
          (refl, set_world-IsSound st1 _ h1))
