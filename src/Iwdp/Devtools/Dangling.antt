-- ===== src/Iwdp/Devtools/Dangling.antt =====
-- src/ios_webkit_debug_proxy.c: a client that is freed while a page still knows it.
use ios_webkit_debug_proxy.Prelude.{
  ℕ, ◌≡◌, inl, inr, refl, sym, ap, subst, not, ◌&&◌, Option, some, none, Bool-cases,
}
use ios_webkit_debug_proxy.Prelude.Status.{Status, success}
use ios_webkit_debug_proxy.Iwdp.{Iport, Iwi, Iws, Ipage, Store, Calls, update, ◌>>=◌, ◌>>◌}
use ios_webkit_debug_proxy.Iwdp.Devtools.{
  is_there, stop_own, forget_iws, iws_close, logs_port, steal, start_page, start_devtools,
}
use ios_webkit_debug_proxy.Iwdp.Devtools.Sound.{
  Returns, Returns-bind, IsSound, update_self, some-same,
}
use ios_webkit_debug_proxy.Iwdp.Devtools.Close.{IsForgotten, forget_iws-Returns}

module _ {W : Type 0} (calls : Calls W) where
  steal-freed :
      (st : Store W) (at old : ℕ) (o : Option ℕ)
      → o ≡ some old
      → st.iwss old ≡ none
      → steal calls o at st ≡ none
  unfolding steal
  steal-freed st at old none owner gone = cc owner
  steal-freed st at old (some c) owner gone =
      let same : c ≡ old = some-same {o = some c} refl owner in rw (same, ◌>>=◌, gone) refl

  start_page-freed :
      (st : Store W) (at client old inspector : ℕ) (iwi : Iwi) (page : Ipage)
      → st.iwis inspector ≡ some iwi
      → st.ipages at ≡ some page
      → page.iws ≡ some old
      → st.iwss old ≡ none
      → start_page calls (some inspector) at client st ≡ none
  unfolding start_page steal
  start_page-freed st at client old inspector iwi page iwi_at page_at owner gone =
      rw (◌>>=◌, iwi_at, page_at)
        (elim (Bool-cases (logs_port iwi page && not (is_there iwi.iport))) [
          | inl e ↦ rw e refl
          | inr e ↦ rw (e, ◌>>◌, ◌>>=◌, steal-freed st at old page.iws owner gone) refl
        ])

  start_devtools-freed :
      (st : Store W) (at client old inspector : ℕ) (iws : Iws) (iport : Iport) (iwi : Iwi)
      (page : Ipage)
      → st.iwss client ≡ some iws
      → st.iports iws.iport ≡ some iport
      → iport.iwi ≡ some inspector
      → st.iwis inspector ≡ some iwi
      → st.ipages at ≡ some page
      → page.iws ≡ some old
      → st.iwss old ≡ none
      → start_devtools calls (some at) (some client) st ≡ none
  unfolding start_devtools
  start_devtools-freed st at client old inspector iws iport iwi page client_at port_at inspected
        iwi_at page_at owner gone =
      rw (◌>>=◌, client_at, port_at)
        (subst (λ o. start_page calls o at client st ≡ none) (sym inspected)
          (start_page-freed st at client old inspector iwi page iwi_at page_at owner gone))

  -- On sound links, for a live client that has no page but is still what a page knows as its
  -- holder: iwdp_iws_close returns and frees it, and from then on iwdp_start_devtools reads freed
  -- memory when it gives this page to a client whose port has an inspector.
  pub iws_close-dangling :
      (st : Store W) (client at : ℕ) (iws : Iws) (page : Ipage)
      → IsSound st
      → st.iwss client ≡ some iws
      → iws.ipage ≡ none
      → st.ipages at ≡ some page
      → page.iws ≡ some client
      → Returns (iws_close calls client st) (λ r st'.
        (r ≡ success)
        × ((next inspector : ℕ) (other : Iws) (iport : Iport) (iwi : Iwi)
            → st'.iwss next ≡ some other
            → st'.iports other.iport ≡ some iport
            → iport.iwi ≡ some inspector
            → st'.iwis inspector ≡ some iwi
            → start_devtools calls (some at) (some next) st' ≡ none))
  unfolding iws_close stop_own
  iws_close-dangling st client at iws page h client_at no_page page_at owner =
      let Ends : Status → Store W → Type 0 = λ r st'.
        (r ≡ success)
        × ((next inspector : ℕ) (other : Iws) (iport : Iport) (iwi : Iwi)
            → st'.iwss next ≡ some other
            → st'.iports other.iport ≡ some iport
            → iport.iwi ≡ some inspector
            → st'.iwis inspector ≡ some iwi
            → start_devtools calls (some at) (some next) st' ≡ none) in
      let stops : stop_own calls client iws.ipage st ≡ some (tt, st) =
        ap (λ o. stop_own calls client o st) no_page in
      rw (Returns, ◌>>=◌, ◌>>◌, client_at, stops)
        (Returns-bind (forget_iws client iws st) _
          (λ r st'.
            (IsForgotten st client → IsSound (record st' { iwss = update st'.iwss client none }))
            × (st'.iwss ≡ st.iwss)
            × (st'.ipages ≡ st.ipages))
          Ends (forget_iws-Returns st client iws (h.registered client iws client_at) h)
          (λ r st2 out. (
            refl,
            λ next inspector other iport iwi live port_at inspected iwi_at.
                start_devtools-freed (record st2 { iwss = update st2.iwss client none }) at next
                  client inspector other iport iwi page live port_at inspected iwi_at
                  (rw out.2 page_at) owner (update_self st2.iwss client none),
          )))
