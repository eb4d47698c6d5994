-- ===== src/Iwdp/Devtools/Close.antt =====
-- src/ios_webkit_debug_proxy.c: `iwdp_iws_close` frees a client.
use Prim.Native.String.{String}
use ios_webkit_debug_proxy.Prelude.{
  ℕ, ◌≡◌, ◌≢◌, inl, inr, refl, sym, ap, subst, ◌∙◌, true, ◌&&◌, Option, some, none, ℕ_discrete,
}
use ios_webkit_debug_proxy.Prelude.Status.{success}
use ios_webkit_debug_proxy.HashTable.{get_value, remove}
use ios_webkit_debug_proxy.HashTable.Table.{view, IsValid}
use ios_webkit_debug_proxy.HashTable.Ops.{get_value_lem, remove_lem}
use ios_webkit_debug_proxy.Iwdp.{
  Iport, Iws, Ipage, Store, Calls, update, text_keys, text_keys-IsLawful, is_pointer, ◌>>=◌, ◌>>◌,
}
use ios_webkit_debug_proxy.Iwdp.Devtools.{
  is_there, find_iws, stop_devtools, stop_own, forget_iws, iws_close,
}
use ios_webkit_debug_proxy.Iwdp.Devtools.Sound.{
  Returns, Returns-bind, Registered, IsSound, update_self, update_ne, update-cases,
  update-none-cases, some-same,
}
use ios_webkit_debug_proxy.Iwdp.Devtools.Released.{
  IsStopped, is_pointer_refl, searched, searched-IsSound,
}
use ios_webkit_debug_proxy.Iwdp.Devtools.Stop.{stop_devtools-Returns}

module _ {W : Type 0} where
  -- No page knows the client.
  abbrev pub IsForgotten : Store W → ℕ → Type 0
  IsForgotten st client = (q : ℕ) (page : Ipage) → st.ipages q ≡ some page → page.iws ≢ some client

  -- The client is freed, and the port that had it has it no more.
  freed-IsSound :
      (st : Store W) (client : ℕ) (iws : Iws) (iport iport' : Iport)
      → IsSound st
      → IsForgotten st client
      → st.iports iws.iport ≡ some iport
      → view text_keys iport.ws_id_to_iws (some iws.ws_id) ≡ some client
      → IsValid text_keys iport'.ws_id_to_iws
      → ((k : Option String)
          → some iws.ws_id ≢ k
          → view text_keys iport'.ws_id_to_iws k ≡ view text_keys iport.ws_id_to_iws k)
      → iport'.iwi ≡ iport.iwi
      → IsSound (record st {
        iports = update st.iports iws.iport (some iport');
        iwss = update st.iwss client none;
      })
  freed-IsSound st client iws iport iport' h forgotten port_at there valid same same_iwi = record {
    linked = λ c q other live holds.
        h.linked c q other (update-none-cases st.iwss client c other live).1 holds;
    registered = λ c other live.
        let (ne, before) = update-none-cases st.iwss client c other live in
        let (port, found, reg) = h.registered c other before in
        elim (ℕ_discrete other.iport iws.iport) [
          | yes e ↦
              let is_port : port ≡ iport = some-same found (rw e port_at) in
              let reg' : view text_keys iport.ws_id_to_iws (some other.ws_id) ≡ some c =
                subst (λ o. view text_keys o.ws_id_to_iws (some other.ws_id) ≡ some c) is_port
                  reg in
              let differs : some iws.ws_id ≢ some other.ws_id = λ same_id.
                let both : view text_keys iport.ws_id_to_iws (some other.ws_id) ≡ some client =
                  rw (← same_id) there in
                absurd (ne (some-same reg' both)) in
              (
                iport',
                rw e (update_self st.iports iws.iport (some iport')),
                same (some other.ws_id) differs ∙ reg',
              )
          | no other_port ↦ (
            port,
            update_ne st.iports iws.iport (some iport') other.iport other_port ∙ found,
            reg,
          )
        ];
    valid = λ q port found. elim (update-cases st.iports iws.iport iport' q port found) [
      | inl (e, is_new) ↦ subst (λ o. IsValid text_keys o.ws_id_to_iws) is_new valid
      | inr (ne, before) ↦ h.valid q port before
    ];
    holder_live = λ q c page found is_holder.
        let (other, live) = h.holder_live q c page found is_holder in
        elim (ℕ_discrete c client) [
          | yes e ↦ absurd (forgotten q page found (is_holder ∙ ap some e))
          | no ne ↦ (other, update_ne st.iwss client none c ne ∙ live)
        ];
    inspector_live = λ q inspector port found is_iwi.
        elim (update-cases st.iports iws.iport iport' q port found) [
          | inl (e, is_new) ↦
              h.inspector_live iws.iport inspector iport port_at
                (sym same_iwi ∙ ap (λ o. o.iwi) is_new ∙ is_iwi)
          | inr (ne, before) ↦ h.inspector_live q inspector port before is_iwi
        ];
    unused = h.unused;
  }

  -- What is left of the client when its page is given up.
  record IsReady (st' : Store W) (client : ℕ) (iws : Iws) : Type 0 where
    sound : IsSound st'
    forgotten : IsForgotten st' client
    listed : Registered st'.iports client iws

  -- The client is taken out of the table and freed.
  pub forget_iws-Returns :
      (st : Store W) (client : ℕ) (iws : Iws)
      → Registered st.iports client iws
      → IsSound st
      → Returns (forget_iws client iws st) (λ r st'.
        (IsForgotten st client → IsSound (record st' { iwss = update st'.iwss client none }))
        × (st'.iwss ≡ st.iwss)
        × (st'.ipages ≡ st.ipages))
  unfolding forget_iws find_iws
  forget_iws-Returns st client iws (iport, port_at, there) h =
      let id = some iws.ws_id in
      let p = iws.iport in
      let valid = h.valid p iport port_at in
      let (answer, found) =
        get_value_lem text_keys text_keys-IsLawful iport.ws_id_to_iws id valid in
      let table = (get_value text_keys iport.ws_id_to_iws id).1 in
      let iport1 = record iport { ws_id_to_iws = table } in
      let iport2 = record iport { ws_id_to_iws = (remove text_keys table id).1 } in
      let st1 = searched st p iport id in
      let h1 = searched-IsSound st p iport id h port_at in
      let at1 = update_self st.iports p (some iport1) in
      let (old, removed) = remove_lem text_keys text_keys-IsLawful table id found.valid in
      rw (Returns, ◌>>=◌, port_at, at1, answer ∙ there, is_pointer_refl client)
        (
          λ forgotten.
              freed-IsSound st1 client iws iport1 iport2 h1 forgotten at1 (found.here ∙ there)
                removed.valid removed.elsewhere refl,
          refl,
          refl,
        )

  module _ (calls : Calls W) where
    stop_own-Returns :
        (st : Store W) (client : ℕ) (iws : Iws) (o : Option ℕ)
        → IsSound st
        → st.iwss client ≡ some iws
        → iws.ipage ≡ o
        → ((q : ℕ) (page : Ipage)
            → st.ipages q ≡ some page
            → page.iws ≡ some client
            → iws.ipage ≡ some q)
        → Returns (stop_own calls client o st) (λ r st'. IsReady st' client iws)
    unfolding stop_own
    stop_own-Returns st client iws none h client_at page_of only = record {
      sound = h;
      forgotten = λ q page found is_holder. cc (page_of, only q page found is_holder);
      listed = h.registered client iws client_at;
    }
    stop_own-Returns st client iws (some at) h client_at page_of only =
        let (ipage, page_at, held) = h.linked client at iws client_at page_of in
        let own : (is_there ipage.sender_id && is_pointer ipage.iws client) ≡ true =
          ap (λ s. is_there s && is_pointer ipage.iws client) held.sender
          ∙ ap (λ o. is_pointer o client) held.owner
          ∙ is_pointer_refl client in
        rw (Returns, ◌>>=◌, page_at, own)
          (Returns-bind (stop_devtools calls at st) _ (λ r st'. IsStopped st at st')
            (λ r st'. IsReady st' client iws) (stop_devtools-Returns calls st at h (ipage, page_at))
            (λ r st' stopped. record {
              sound = stopped.sound;
              forgotten = λ q page found is_holder.
                  let (before, found', is_holder') =
                    stopped.holders q client page found is_holder in
                  let same : some at ≡ some q = sym page_of ∙ only q before found' is_holder' in
                  let is_at : at ≡ q = sym (some-same same refl) in
                  stopped.released client iws page client_at page_of (rw is_at found) is_holder;
              listed = stopped.still_registered client iws client_at;
            }))

    -- On sound links, for a live client that serves no file: if no page is held by it but the one it
    -- has, iwdp_iws_close returns, frees it, and leaves sound links.
    pub iws_close-IsSound :
        (st : Store W) (client : ℕ) (iws : Iws)
        → IsSound st
        → st.iwss client ≡ some iws
        → ((q : ℕ) (page : Ipage)
            → st.ipages q ≡ some page
            → page.iws ≡ some client
            → iws.ipage ≡ some q)
        → Returns
            (iws_close calls client st)
            (λ r st'. (r ≡ success) × IsSound st' × (st'.iwss client ≡ none))
    unfolding iws_close
    iws_close-IsSound st client iws h client_at only =
        rw (Returns, ◌>>=◌, ◌>>◌, client_at)
          (Returns-bind (stop_own calls client iws.ipage st) _ (λ r st'. IsReady st' client iws)
            (λ r st'. (r ≡ success) × IsSound st' × (st'.iwss client ≡ none))
            (stop_own-Returns st client iws iws.ipage h client_at refl only)
            (λ r st1 ready.
              Returns-bind (forget_iws client iws st1) _
                (λ r st'.
                  (IsForgotten st1 client
                    → IsSound (record st' { iwss = update st'.iwss client none }))
                  × (st'.iwss ≡ st1.iwss)
                  × (st'.ipages ≡ st1.ipages))
                (λ r st'. (r ≡ success) × IsSound st' × (st'.iwss client ≡ none))
                (forget_iws-Returns st1 client iws ready.listed ready.sound)
                (λ r st2 out. (refl, out.0 ready.forgotten, update_self st2.iwss client none))))
