-- ===== src/Iwdp/Devtools/Start.antt =====
-- src/ios_webkit_debug_proxy.c: `iwdp_start_devtools` gives a page to a client.
use ios_webkit_debug_proxy.Prelude.{
  ℕ, ◌≡◌, ◌≢◌, inl, inr, refl, sym, ap, subst, ◌∙◌, Bool, true, false, not, ◌&&◌, Option, some,
  none, Option-cases, ◌⊎◌,
}
use ios_webkit_debug_proxy.Prelude.Status.{Status, error}
use ios_webkit_debug_proxy.Iwdp.{Iport, Iwi, Iws, Ipage, Store, Calls, update, ◌>>=◌}
use ios_webkit_debug_proxy.Iwdp.Devtools.{
  is_there, logs_port, steal, take_page, start_page, start_devtools, stop_devtools,
}
use ios_webkit_debug_proxy.Iwdp.Devtools.Sound.{
  Returns, Returns-bind, Returns-mono, Linked, IsLive, IsSound, IsUnlinked, update_self,
  update-cases, update-IsLive, some-same,
}
use ios_webkit_debug_proxy.Iwdp.Devtools.Sound.Writes.{
  set_world-IsSound, set_iws-IsSound, rewritten, rewritten-IsSound,
}
use ios_webkit_debug_proxy.Iwdp.Devtools.Released.{IsStopped, unheld}
use ios_webkit_debug_proxy.Iwdp.Devtools.Stop.{stop_devtools-Returns}

passes : (b : Bool) (o : Option ℕ) → o ≢ none → (b && not (is_there o)) ≡ false
passes b none owned = absurd (owned refl)
passes true (some p) owned = refl
passes false (some p) owned = refl

module _ {W : Type 0} where
  -- The client has the page, and no other client has.
  pub record Holds (client at : ℕ) (st : Store W) : Type 0 where
    pub iws : Iws
    pub live : st.iwss client ≡ some iws
    pub has_page : iws.ipage ≡ some at
    pub alone : (c : ℕ) (other : Iws) → st.iwss c ≡ some other → other.ipage ≡ some at → c ≡ client

  abbrev pub IsStarted : ℕ → ℕ → Store W → Type 0
  IsStarted client at st = IsSound st × Holds client at st

  module _ (calls : Calls W) where
    started :
        (st : Store W) (at client : ℕ) (ipage : Ipage) (iws : Iws) (n : ℕ) (w : W)
        → IsSound st
        → IsUnlinked st at
        → st.ipages at ≡ some ipage
        → st.iwss client ≡ some iws
        → IsStarted client at
            (record (rewritten st at client
              (record ipage { iws = some client; sender_id = some iws.ws_id })
              (record iws { ipage = some at; page_num = n })) { world = w })
    started st at client ipage iws n w h free page_at client_at =
        let ipage' = record ipage { iws = some client; sender_id = some iws.ws_id } in
        let iws' = record iws { ipage = some at; page_num = n } in
        let st' = rewritten st at client ipage' iws' in
        let now = update_self st.ipages at (some ipage') in
        let sound =
          rewritten-IsSound st at client ipage ipage' iws iws' h page_at client_at refl refl
            (λ q e.
              let same : at ≡ q = sym (some-same e refl) in
              subst (λ p. Linked st'.ipages p client iws') same
                (ipage', now, record { owner = refl; sender = refl }))
            (λ c other ne live holds. absurd (free c other live holds))
            (λ c e.
              let same : client ≡ c = sym (some-same e refl) in
              (iws, subst (λ d. st.iwss d ≡ some iws) same client_at)) in
        (
          set_world-IsSound st' w sound,
          record {
            iws = iws';
            live = update_self st.iwss client (some iws');
            has_page = refl;
            alone = λ c other live holds. elim (update-cases st.iwss client iws' c other live) [
              | inl (e, is_new) ↦ e
              | inr (ne, before) ↦ absurd (free c other before holds)
            ];
          },
        )

    take_page-Returns :
        (st : Store W) (at client inspector : ℕ) (iwi : Iwi)
        → IsSound st
        → IsUnlinked st at
        → IsLive st.ipages at
        → IsLive st.iwss client
        → Returns (take_page calls at client inspector iwi st) (λ r st'. IsStarted client at st')
    unfolding take_page
    take_page-Returns st at client inspector iwi h free (ipage, page_at) (iws, client_at) =
        rw (Returns, ◌>>=◌, page_at, client_at)
          (started st at client ipage iws ipage.page_num _ h free page_at client_at)

    -- The client that lost the page gets its number.
    renumbered :
        (st st' : Store W) (at old : ℕ) (iws2 : Iws) (n : ℕ)
        → IsStopped st at st'
        → st'.iwss old ≡ some iws2
        → IsStopped st at
            (record st' { iwss = update st'.iwss old (some (record iws2 { page_num = n })) })
    renumbered st st' at old iws2 n stopped live2 =
        let iws' = record iws2 { page_num = n } in
        record {
          sound = set_iws-IsSound st' old iws2 iws' stopped.sound live2 refl refl (λ q e. e);
          unlinked = λ c other live holds. elim (update-cases st'.iwss old iws' c other live) [
            | inl (e, is_new) ↦ stopped.unlinked old iws2 live2 (ap (λ o. o.ipage) is_new ∙ holds)
            | inr (ne, before) ↦ stopped.unlinked c other before holds
          ];
          ipages_live = stopped.ipages_live;
          iwss_live = λ c l. update-IsLive st'.iwss old iws' c (stopped.iwss_live c l);
          same_iwis = stopped.same_iwis;
          holders = stopped.holders;
          released = stopped.released;
          still_registered = stopped.still_registered;
        }

    steal-Returns :
        (st : Store W) (at : ℕ) (ipage : Ipage) (o : Option ℕ)
        → IsSound st
        → st.ipages at ≡ some ipage
        → ipage.iws ≡ o
        → Returns (steal calls o at st) (λ r st'. IsStopped st at st')
    unfolding steal
    steal-Returns st at ipage none h page_at owner = unheld st at ipage h page_at owner
    steal-Returns st at ipage (some old) h page_at owner =
        let (iws, old_at) = h.holder_live at old ipage page_at owner in
        rw (Returns, ◌>>=◌, old_at)
          (Returns-bind (stop_devtools calls at st) _ (λ r st'. IsStopped st at st')
            (λ r st'. IsStopped st at st') (stop_devtools-Returns calls st at h (ipage, page_at))
            (λ r st' stopped.
              let (iws2, live2) = stopped.iwss_live old (iws, old_at) in
              let (now, page2) = stopped.ipages_live at (ipage, page_at) in
              rw (Returns, ◌>>=◌, live2, page2)
                (renumbered st st' at old iws2 now.page_num stopped live2)))

    start_page-Returns :
        (st : Store W) (at client inspector : ℕ) (iwi : Iwi)
        → IsSound st
        → IsLive st.ipages at
        → IsLive st.iwss client
        → st.iwis inspector ≡ some iwi
        → iwi.iport ≢ none
        → Returns
            (start_page calls (some inspector) at client st)
            (λ r st'. IsStarted client at st')
    unfolding start_page
    start_page-Returns st at client inspector iwi h (ipage, page_at) live iwi_at owned =
        let goes_on : (logs_port iwi ipage && not (is_there iwi.iport)) ≡ false =
          passes (logs_port iwi ipage) iwi.iport owned in
        rw (Returns, ◌>>=◌, iwi_at, page_at, goes_on)
          (Returns-bind (steal calls ipage.iws at st) _ (λ r st'. IsStopped st at st')
            (λ r st'. IsStarted client at st') (steal-Returns st at ipage ipage.iws h page_at refl)
            (λ r st' stopped.
              take_page-Returns st' at client inspector iwi stopped.sound stopped.unlinked
                (stopped.ipages_live at (ipage, page_at)) (stopped.iwss_live client live)))

    -- On sound links, for a live page and a live client whose inspector, if its port has one, has a
    -- port: iwdp_start_devtools returns, and the links are sound; either the port has no inspector,
    -- and it answers an error and changes nothing, or the client has the page and no other client
    -- has it.
    pub start_devtools-IsSound :
        (st : Store W) (at client : ℕ) (iws : Iws) (iport : Iport)
        → IsSound st
        → IsLive st.ipages at
        → st.iwss client ≡ some iws
        → st.iports iws.iport ≡ some iport
        → ((inspector : ℕ) (iwi : Iwi)
            → iport.iwi ≡ some inspector
            → st.iwis inspector ≡ some iwi
            → iwi.iport ≢ none)
        → Returns (start_devtools calls (some at) (some client) st) (λ r st'.
          ((iport.iwi ≡ none) × (r ≡ error) × (st' ≡ st))
          ⊎ ((iport.iwi ≢ none) × IsStarted client at st'))
    unfolding start_devtools
    start_devtools-IsSound st at client iws iport h page_live client_at port_at owned =
        let ends : Status → Store W → Type 0 = λ r st'.
          ((iport.iwi ≡ none) × (r ≡ error) × (st' ≡ st))
          ⊎ ((iport.iwi ≢ none) × IsStarted client at st') in
        rw (Returns, ◌>>=◌, client_at, port_at)
          (elim (Option-cases iport.iwi) [
            | inl e ↦
                subst (λ o. Returns (start_page calls o at client st) ends) (sym e)
                  (inl (e, refl, refl))
            | inr (inspector, e) ↦
                let (iwi, iwi_at) = h.inspector_live iws.iport inspector iport port_at e in
                subst (λ o. Returns (start_page calls o at client st) ends) (sym e)
                  (Returns-mono (start_page calls (some inspector) at client st)
                    (λ r st'. IsStarted client at st') ends
                    (start_page-Returns st at client inspector iwi h page_live (iws, client_at)
                      iwi_at (owned inspector iwi e iwi_at))
                    (λ r st' out. inr (λ bad. cc (e, bad), out)))
          ])
