-- ===== src/Iwdp/Devtools/Sound/Writes.antt =====
-- src/ios_webkit_debug_proxy.c: writes to ports, inspectors and clients that keep the links.
use Prim.Native.String.{String}
use ios_webkit_debug_proxy.Prelude.{
  ℕ, ◌≤◌, ◌≡◌, ◌≢◌, sym, ap, subst, ◌∙◌, Option, some, ℕ_discrete, inl, inr,
}
use ios_webkit_debug_proxy.HashTable.Table.{view, IsValid}
use ios_webkit_debug_proxy.Iwdp.{Iport, Iwi, Iws, Ipage, Store, update, text_keys}
use ios_webkit_debug_proxy.Iwdp.Devtools.Sound.{
  IsHeld, Linked, Registered, IsLive, IsSound, update_self, update_ne, update-cases, update-IsLive,
  some-same,
}

module _ {W : Type 0} where
  -- A port keeps its map of clients and its inspector.
  pub set_iport-IsSound :
      (st : Store W) (p : ℕ) (old new : Iport)
      → IsSound st
      → st.iports p ≡ some old
      → IsValid text_keys new.ws_id_to_iws
      → ((k : Option String)
          → view text_keys new.ws_id_to_iws k ≡ view text_keys old.ws_id_to_iws k)
      → new.iwi ≡ old.iwi
      → IsSound (record st { iports = update st.iports p (some new) })
  set_iport-IsSound st p old new h at_p valid same same_iwi = record {
    linked = h.linked;
    registered = λ client iws live.
        let (iport, found, there) = h.registered client iws live in
        elim (ℕ_discrete iws.iport p) [
          | yes e ↦
              let is_old : iport ≡ old = some-same found (rw e at_p) in
              (
                new,
                rw e (update_self st.iports p (some new)),
                same (some iws.ws_id)
                    ∙ subst (λ o. view text_keys o.ws_id_to_iws (some iws.ws_id) ≡ some client)
                        is_old there,
              )
          | no ne ↦ (iport, update_ne st.iports p (some new) iws.iport ne ∙ found, there)
        ];
    valid = λ q iport found. elim (update-cases st.iports p new q iport found) [
      | inl (e, is_new) ↦ subst (λ o. IsValid text_keys o.ws_id_to_iws) is_new valid
      | inr (ne, before) ↦ h.valid q iport before
    ];
    holder_live = h.holder_live;
    inspector_live = λ q inspector iport found is_iwi.
        elim (update-cases st.iports p new q iport found) [
          | inl (e, is_new) ↦
              h.inspector_live p inspector old at_p (sym same_iwi ∙ ap (λ o. o.iwi) is_new ∙ is_iwi)
          | inr (ne, before) ↦ h.inspector_live q inspector iport before is_iwi
        ];
    unused = h.unused;
  }

  pub set_world-IsSound : (st : Store W) (w : W) → IsSound st → IsSound (record st { world = w })
  set_world-IsSound st w h = record {
    linked = h.linked;
    registered = h.registered;
    valid = h.valid;
    holder_live = h.holder_live;
    inspector_live = h.inspector_live;
    unused = h.unused;
  }

  abbrev pub rewritten : Store W → ℕ → ℕ → Ipage → Iws → Store W
  rewritten st at client ipage iws = record st {
    iwss = update st.iwss client (some iws);
    ipages = update st.ipages at (some ipage);
  }

  -- A client and a page are written together: the client keeps its port and its id.
  module _ (st : Store W) (at client : ℕ) (ipage ipage' : Ipage) (iws iws' : Iws) (h : IsSound st)
      (page_at : st.ipages at ≡ some ipage) (client_at : st.iwss client ≡ some iws)
      (same_port : iws'.iport ≡ iws.iport) (same_id : iws'.ws_id ≡ iws.ws_id) where
    pub rewritten-IsSound :
        ((q : ℕ)
          → iws'.ipage ≡ some q
          → Linked (rewritten st at client ipage' iws').ipages q client iws')
        → ((c : ℕ) (other : Iws)
            → c ≢ client
            → st.iwss c ≡ some other
            → other.ipage ≡ some at
            → IsHeld ipage' c other)
        → ((c : ℕ) → ipage'.iws ≡ some c → IsLive st.iwss c)
        → IsSound (rewritten st at client ipage' iws')
    rewritten-IsSound own others holder = record {
      linked = λ c q other live holds. elim (update-cases st.iwss client iws' c other live) [
        | inl (e, is_new) ↦
            let link = own q (ap (λ o. o.ipage) is_new ∙ holds) in
            rw e (
              subst (λ o. Linked (rewritten st at client ipage' iws').ipages q client o) is_new
                link)
        | inr (ne, before) ↦ elim (ℕ_discrete q at) [
          | yes e ↦
              let held = others c other ne before (holds ∙ ap some e) in
              (ipage', rw e (update_self st.ipages at (some ipage')), held)
          | no elsewhere ↦
              let (page, found, held) = h.linked c q other before holds in
              (page, update_ne st.ipages at (some ipage') q elsewhere ∙ found, held)
        ]
      ];
      registered = λ c other live. elim (update-cases st.iwss client iws' c other live) [
        | inl (e, is_new) ↦
            let there : Registered st.iports client iws' =
              rw (same_port, same_id) (h.registered client iws client_at) in
            rw e (subst (λ o. Registered st.iports client o) is_new there)
        | inr (ne, before) ↦ h.registered c other before
      ];
      valid = h.valid;
      holder_live = λ q c page found is_holder.
          elim (update-cases st.ipages at ipage' q page found) [
            | inl (e, is_new) ↦
                update-IsLive st.iwss client iws' c (holder c (ap (λ o. o.iws) is_new ∙ is_holder))
            | inr (ne, before) ↦
                update-IsLive st.iwss client iws' c (h.holder_live q c page before is_holder)
          ];
      inspector_live = h.inspector_live;
      unused = λ q behind. elim (ℕ_discrete q at) [
        | yes e ↦ cc (page_at, h.unused at (subst (λ n. st.next ≤ n) e behind))
        | no ne ↦ update_ne st.ipages at (some ipage') q ne ∙ h.unused q behind
      ];
    }

  -- A client is written that keeps its port and its id, and gets no page that it had not.
  pub set_iws-IsSound :
      (st : Store W) (client : ℕ) (iws iws' : Iws)
      → IsSound st
      → st.iwss client ≡ some iws
      → iws'.iport ≡ iws.iport
      → iws'.ws_id ≡ iws.ws_id
      → ((q : ℕ) → iws'.ipage ≡ some q → iws.ipage ≡ some q)
      → IsSound (record st { iwss = update st.iwss client (some iws') })
  set_iws-IsSound st client iws iws' h client_at same_port same_id no_more = record {
    linked = λ c q other live holds. elim (update-cases st.iwss client iws' c other live) [
      | inl (e, is_new) ↦
          let (page, found, held) =
            h.linked client q iws client_at (no_more q (ap (λ o. o.ipage) is_new ∙ holds)) in
          let id = sym (ap (λ o. o.ws_id) is_new) ∙ same_id in
          (page, found, rw e (record { owner = held.owner; sender = rw id held.sender }))
      | inr (ne, before) ↦ h.linked c q other before holds
    ];
    registered = λ c other live. elim (update-cases st.iwss client iws' c other live) [
      | inl (e, is_new) ↦
          let there : Registered st.iports client iws' =
            rw (same_port, same_id) (h.registered client iws client_at) in
          rw e (subst (λ o. Registered st.iports client o) is_new there)
      | inr (ne, before) ↦ h.registered c other before
    ];
    valid = h.valid;
    holder_live = λ q c page found is_holder.
        update-IsLive st.iwss client iws' c (h.holder_live q c page found is_holder);
    inspector_live = h.inspector_live;
    unused = h.unused;
  }

  pub set_iwi-IsSound :
      (st : Store W) (inspector : ℕ) (iwi : Iwi)
      → IsSound st
      → IsSound (record st { iwis = update st.iwis inspector (some iwi) })
  set_iwi-IsSound st inspector iwi h = record {
    linked = h.linked;
    registered = h.registered;
    valid = h.valid;
    holder_live = h.holder_live;
    inspector_live = λ p i iport found is_iwi.
        update-IsLive st.iwis inspector iwi i (h.inspector_live p i iport found is_iwi);
    unused = h.unused;
  }
