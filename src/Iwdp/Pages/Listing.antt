-- ===== src/Iwdp/Pages/Listing.antt =====
-- src/ios_webkit_debug_proxy.c: a listing keeps the links between clients and pages.
use Prim.Native.String.{String}
use ios_webkit_debug_proxy.Prelude.{ℕ, ◌≡◌, inl, inr, refl, Option, some, none, List, Bool-cases}
use ios_webkit_debug_proxy.Prelude.Status.{success}
use ios_webkit_debug_proxy.HashTable.{get_value, values}
use ios_webkit_debug_proxy.Rpc.Parse.{App, Page}
use ios_webkit_debug_proxy.Iwdp.{Iwi, Store, Calls, update, text_keys, ◌>>=◌, ◌>>◌}
use ios_webkit_debug_proxy.Iwdp.Devtools.{is_there}
use ios_webkit_debug_proxy.Iwdp.Devtools.Sound.{
  Returns, Returns-bind, Returns-mono, IsLive, IsSound, update_self,
}
use ios_webkit_debug_proxy.Iwdp.Devtools.Sound.Writes.{set_world-IsSound}
use ios_webkit_debug_proxy.Iwdp.Pages.{
  add_pages, is_gone, drop_pages, relist, list_unknown, on_application_sent_listing,
}
use ios_webkit_debug_proxy.Iwdp.Pages.Drop.{
  AreListed, IsKept, IsKept-refl, IsKept-trans, same_pages, written, drop_pages-Returns,
}
use ios_webkit_debug_proxy.Iwdp.Pages.Added.{
  IsGrown, AreListed-AreLive, AreListed-grown, add_pages-Returns,
}

module _ {W : Type 0} (calls : Calls W) where
  relist-Returns :
      (st : Store W) (inspector : ℕ) (app_id : String) (pages : List Page) (ipages : List ℕ)
      → IsSound st
      → IsLive st.iwis inspector
      → AreListed st ipages
      → Returns
          (relist calls inspector app_id pages ipages st)
          (λ r st'. (r ≡ success) × IsKept st st')
  unfolding relist
  relist-Returns st inspector app_id pages ipages h iwi_live listed =
      Returns-bind (add_pages inspector app_id ipages pages st) _ (λ r st'. IsGrown st st')
        (λ r st'. (r ≡ success) × IsKept st st')
        (add_pages-Returns st inspector app_id ipages pages h iwi_live
          (AreListed-AreLive st ipages listed))
        (λ r st1 g.
          Returns-bind (drop_pages calls (is_gone app_id pages) inspector ipages st1) _
            (λ r st'. IsKept st1 st') (λ r st'. (r ≡ success) × IsKept st st')
            (drop_pages-Returns calls (is_gone app_id pages) st1 inspector ipages g.kept.sound
              (g.kept.iwis_live inspector iwi_live) (AreListed-grown st st1 ipages g listed))
            (λ r st2 more. (refl, IsKept-trans g.kept more)))

  list_unknown-Returns :
      (st : Store W) (inspector : ℕ) (connection_id : Option String) (app : Option App)
      → IsSound st
      → Returns (list_unknown calls inspector connection_id app st) (λ r st'. IsKept st st')
  unfolding list_unknown
  list_unknown-Returns st inspector connection_id none h = IsKept-refl h
  list_unknown-Returns st inspector connection_id (some app) h = record {
    sound = set_world-IsSound st _ h;
    iwss_live = λ c l. l;
    iwis_live = λ i l. l;
  }

  -- On sound links, for a live inspector whose pages are live and all different: whatever pages an
  -- application lists, iwdp_on_applicationSentListing returns, the links stay sound, and no client
  -- and no inspector is freed.
  pub on_application_sent_listing-IsSound :
      (st : Store W) (inspector : ℕ) (iwi : Iwi) (app_id : String) (pages : List Page)
      → IsSound st
      → st.iwis inspector ≡ some iwi
      → AreListed st (values iwi.page_num_to_ipage)
      → Returns
          (on_application_sent_listing calls inspector app_id pages st)
          (λ r st'. IsKept st st')
  unfolding on_application_sent_listing
  on_application_sent_listing-IsSound st inspector iwi app_id pages h iwi_at listed =
      let r = get_value text_keys iwi.app_id_to_true (some app_id) in
      let iwi' = record iwi { app_id_to_true = r.1 } in
      let st1 = record st { iwis = update st.iwis inspector (some iwi') } in
      let first = written st inspector iwi' h in
      rw (Returns, ◌>>=◌, iwi_at)
        (elim (Bool-cases (is_there iwi.iport)) [
          | inr e ↦ rw e (IsKept-refl h)
          | inl e ↦ elim (Bool-cases (is_there r.0)) [
            | inl known ↦
                rw (e, known, ◌>>◌, ◌>>=◌)
                  (Returns-mono
                    (relist calls inspector app_id pages (values iwi.page_num_to_ipage) st1)
                    (λ r st'. (r ≡ success) × IsKept st1 st') (λ r st'. IsKept st st')
                    (relist-Returns st1 inspector app_id pages (values iwi.page_num_to_ipage)
                      first.sound (iwi', update_self st.iwis inspector (some iwi'))
                      (same_pages (values iwi.page_num_to_ipage) st st1 refl listed))
                    (λ r st' out. IsKept-trans first out.1))
            | inr unknown ↦
                rw (e, unknown, ◌>>◌, ◌>>=◌)
                  (Returns-mono (list_unknown calls inspector iwi.connection_id iwi.app st1)
                    (λ r st'. IsKept st1 st') (λ r st'. IsKept st st')
                    (list_unknown-Returns st1 inspector iwi.connection_id iwi.app first.sound)
                    (λ r st' out. IsKept-trans first out))
          ]
        ])
