-- ===== src/Iwdp/Devtools/Stop.antt =====
-- src/ios_webkit_debug_proxy.c: `iwdp_stop_devtools` takes a page from the client that holds it.
use ios_webkit_debug_proxy.Prelude.{
  ℕ, ◌≡◌, inl, inr, refl, sym, ap, subst, ◌∙◌, Option, some, none, Bool-cases,
}
use ios_webkit_debug_proxy.Prelude.Status.{Status, success}
use ios_webkit_debug_proxy.HashTable.{get_value}
use ios_webkit_debug_proxy.HashTable.Ops.{get_value_lem}
use ios_webkit_debug_proxy.Iwdp.{
  Iport, Iws, Ipage, Store, Calls, text_keys, text_keys-IsLawful, is_pointer, ◌>>=◌,
}
use ios_webkit_debug_proxy.Iwdp.Devtools.{
  find_iws, is_ours, send_did_close, give_up, stop_client, stop_held, stop_devtools,
}
use ios_webkit_debug_proxy.Iwdp.Devtools.Sound.{
  Returns, Returns-bind, Returns-mono, IsLive, IsSound, some-same,
}
use ios_webkit_debug_proxy.Iwdp.Devtools.Sound.Writes.{set_world-IsSound}
use ios_webkit_debug_proxy.Iwdp.Devtools.Released.{
  IsStopped, is_pointer-eq, is_pointer_refl, untouched, unheld, holder_unique, given_up, searched,
  searched-IsSound,
}

module _ {W : Type 0} (calls : Calls W) where
  -- The device is told, or not; no object changes.
  send_did_close-Returns :
      (st : Store W) (o : Option ℕ) (ipage : Ipage)
      → ((inspector : ℕ) → o ≡ some inspector → IsLive st.iwis inspector)
      → Returns
          (send_did_close calls o ipage st)
          (λ r st'. (w : W) × (st' ≡ record st { world = w }))
  unfolding send_did_close
  send_did_close-Returns st none ipage live = (st.world, refl)
  send_did_close-Returns st (some inspector) ipage live =
      let (iwi, found) = live inspector refl in
      rw (Returns, ◌>>=◌, found)
        (elim (Bool-cases (is_ours iwi.connection_id ipage.connection_id)) [
          | inl ours ↦
              let w =
                (calls.send_forward_did_close inspector iwi.connection_id ipage.app_id ipage.page_id
                  ipage.sender_id st.world).1 in
              rw ours (w, refl)
          | inr theirs ↦ rw theirs (st.world, refl)
        ])

  give_up-Returns :
      (st : Store W) (at client : ℕ) (ipage : Ipage) (iws : Iws) (iport : Iport)
      → IsSound st
      → st.ipages at ≡ some ipage
      → ipage.iws ≡ some client
      → st.iwss client ≡ some iws
      → ((inspector : ℕ) → iport.iwi ≡ some inspector → IsLive st.iwis inspector)
      → Returns
          (give_up calls at ipage client iws iport st)
          (λ r st'. IsStopped st at st' × (r ≡ success))
  unfolding give_up
  give_up-Returns st at client ipage iws iport h page_at owner client_at live =
      Returns-bind (send_did_close calls iport.iwi ipage st) _
        (λ r st'. (w : W) × (st' ≡ record st { world = w }))
        (λ r st'. IsStopped st at st' × (r ≡ success))
        (send_did_close-Returns st iport.iwi ipage live)
        (λ r st' told.
          let (w, e) = told in
          let stopped =
            given_up (record st { world = w }) at client ipage iws (set_world-IsSound st w h)
              page_at owner client_at in
          rw e (
            record {
              sound = stopped.sound;
              unlinked = stopped.unlinked;
              ipages_live = stopped.ipages_live;
              iwss_live = stopped.iwss_live;
              same_iwis = stopped.same_iwis;
              holders = stopped.holders;
              released = stopped.released;
              still_registered = stopped.still_registered;
            },
            refl,
          ))

  -- The client is found under its id, and gives the page up.
  stop_client-Returns :
      (st : Store W) (at client : ℕ) (ipage : Ipage) (iws : Iws)
      → IsSound st
      → st.ipages at ≡ some ipage
      → ipage.iws ≡ some client
      → st.iwss client ≡ some iws
      → iws.ipage ≡ some at
      → Returns
          (stop_client calls (some iws.ws_id) at ipage client iws st)
          (λ r st'. IsStopped st at st' × (r ≡ success))
  unfolding stop_client find_iws
  stop_client-Returns st at client ipage iws h page_at owner client_at holds =
      let (iport, port_at, there) = h.registered client iws client_at in
      let valid = h.valid iws.iport iport port_at in
      let answer : (get_value text_keys iport.ws_id_to_iws (some iws.ws_id)).0 ≡ some client =
        (get_value_lem text_keys text_keys-IsLawful iport.ws_id_to_iws (some iws.ws_id) valid).0
        ∙ there in
      let st1 = searched st iws.iport iport (some iws.ws_id) in
      let h1 = searched-IsSound st iws.iport iport (some iws.ws_id) h port_at in
      rw (Returns, ◌>>=◌, port_at, answer, is_pointer_refl client)
        (Returns-mono (give_up calls at ipage client iws iport st1)
          (λ r st'. IsStopped st1 at st' × (r ≡ success)) _
          (give_up-Returns st1 at client ipage iws iport h1 page_at owner client_at
            (λ inspector e. h.inspector_live iws.iport inspector iport port_at e))
          (λ r st' out. (
            record {
              sound = out.0.sound;
              unlinked = out.0.unlinked;
              ipages_live = out.0.ipages_live;
              iwss_live = out.0.iwss_live;
              same_iwis = out.0.same_iwis;
              holders = out.0.holders;
              released = out.0.released;
              still_registered = out.0.still_registered;
            },
            out.1,
          )))

  stop_held-Returns :
      (st : Store W) (at : ℕ) (ipage : Ipage) (o : Option ℕ)
      → IsSound st
      → st.ipages at ≡ some ipage
      → ipage.iws ≡ o
      → Returns (stop_held calls o at ipage st) (λ r st'. IsStopped st at st')
  unfolding stop_held
  stop_held-Returns st at ipage none h page_at owner = unheld st at ipage h page_at owner
  stop_held-Returns st at ipage (some client) h page_at owner =
      let (iws, client_at) = h.holder_live at client ipage page_at owner in
      rw (Returns, ◌>>=◌, client_at)
        (elim (Bool-cases (is_pointer iws.ipage at)) [
          | inl e ↦
              let holds = is_pointer-eq iws.ipage at e in
              let (page, found, held) = h.linked client at iws client_at holds in
              let sender : ipage.sender_id ≡ some iws.ws_id =
                ap (λ o. o.sender_id) (some-same page_at found) ∙ held.sender in
              let ends = λ (r : Status) (st' : Store W). IsStopped st at st' in
              rw e (
                subst (λ s. Returns (stop_client calls s at ipage client iws st) ends) (sym sender)
                  (Returns-mono (stop_client calls (some iws.ws_id) at ipage client iws st) _ ends
                    (stop_client-Returns st at client ipage iws h page_at owner client_at holds)
                    (λ r st' out. out.0)))
          | inr e ↦ rw e (
              untouched st at h (λ c other live holds.
                let same = holder_unique st at client c ipage other h page_at owner live holds in
                let is_other : other ≡ iws =
                  some-same (subst (λ d. st.iwss d ≡ some other) same live) client_at in
                let held : iws.ipage ≡ some at = ap (λ o. o.ipage) (sym is_other) ∙ holds in
                cc (e, ap (λ o. is_pointer o at) held, is_pointer_refl at)))
        ])

  -- On sound links, for a live page: `iwdp_stop_devtools` returns, the links stay sound, no object is
  -- freed, and no client holds the page.
  pub stop_devtools-Returns :
      (st : Store W) (at : ℕ)
      → IsSound st
      → IsLive st.ipages at
      → Returns (stop_devtools calls at st) (λ r st'. IsStopped st at st')
  unfolding stop_devtools
  stop_devtools-Returns st at h (ipage, page_at) =
      rw (Returns, ◌>>=◌, page_at) (stop_held-Returns st at ipage ipage.iws h page_at refl)
