-- ===== src/Iwdp/Pages/Drop.antt =====
-- src/ios_webkit_debug_proxy.c: pages that are no longer listed are given up and freed.
use Prim.Native.String.{String}
use ios_webkit_debug_proxy.Prelude.{
  ℕ, ◌≡◌, ◌≢◌, inl, inr, refl, ◌∙◌, Bool, some, none, List, [], ◌∷◌, Bool-cases,
}
use ios_webkit_debug_proxy.Prelude.Status.{success}
use ios_webkit_debug_proxy.HashTable.{get_key, remove, values}
use ios_webkit_debug_proxy.HashTable.Keys.{int_keys}
use ios_webkit_debug_proxy.Iwdp.{Iwi, Ipage, Store, Calls, update, text_keys, ◌>>=◌, ◌>>◌}
use ios_webkit_debug_proxy.Iwdp.Devtools.{is_there, stop_devtools}
use ios_webkit_debug_proxy.Iwdp.Devtools.Sound.{
  Returns, Returns-bind, Returns-mono, IsLive, IsSound, update_self, update_ne, update-IsLive,
}
use ios_webkit_debug_proxy.Iwdp.Devtools.Sound.Writes.{set_iwi-IsSound}
use ios_webkit_debug_proxy.Iwdp.Devtools.Sound.Pages.{free_ipage-IsSound}
use ios_webkit_debug_proxy.Iwdp.Devtools.Released.{IsStopped}
use ios_webkit_debug_proxy.Iwdp.Devtools.Stop.{stop_devtools-Returns}
use ios_webkit_debug_proxy.Iwdp.Pages.{drop_page, drop_pages, is_of_app, remove_app_id}

-- The page is not among those that follow.
abbrev pub IsNew : ℕ → List ℕ → Type 0
IsNew at [] = Unit {0}
IsNew at (q ∷ qs) = (q ≢ at) × IsNew at qs

module _ {W : Type 0} where
  -- The pages are live and all different.
  abbrev pub AreListed : Store W → List ℕ → Type 0
  AreListed st [] = Unit {0}
  AreListed st (at ∷ rest) = IsLive st.ipages at × IsNew at rest × AreListed st rest

  -- The links are sound, and live clients and inspectors stay.
  pub record IsKept (st st' : Store W) : Type 0 where
    pub sound : IsSound st'
    pub iwss_live : (c : ℕ) → IsLive st.iwss c → IsLive st'.iwss c
    pub iwis_live : (i : ℕ) → IsLive st.iwis i → IsLive st'.iwis i

  pub IsKept-refl : {st : Store W} → IsSound st → IsKept st st
  IsKept-refl h = record { sound = h; iwss_live = λ c l. l; iwis_live = λ i l. l }

  pub IsKept-trans : {a b c : Store W} → IsKept a b → IsKept b c → IsKept a c
  IsKept-trans f g = record {
    sound = g.sound;
    iwss_live = λ c l. g.iwss_live c (f.iwss_live c l);
    iwis_live = λ i l. g.iwis_live i (f.iwis_live i l);
  }

  -- Every page but one stays.
  abbrev pub KeepsOthers : ℕ → Store W → Store W → Type 0
  KeepsOthers at st st' = (q : ℕ) → q ≢ at → IsLive st.ipages q → IsLive st'.ipages q

  AreListed-others :
      (at : ℕ) (st st' : Store W) (rest : List ℕ)
      → KeepsOthers at st st'
      → IsNew at rest
      → AreListed st rest
      → AreListed st' rest
  AreListed-others at st st' [] keeps fresh listed = tt
  AreListed-others at st st' (q ∷ rest) keeps (ne, fresh) (live, new, listed) =
      (keeps q ne live, new, AreListed-others at st st' rest keeps fresh listed)

  pub same_pages :
      (ipages : List ℕ) (st st' : Store W)
      → st'.ipages ≡ st.ipages
      → AreListed st ipages
      → AreListed st' ipages
  same_pages [] st st' e listed = tt
  same_pages (at ∷ rest) st st' e (live, fresh, listed) =
      (rw e live, fresh, same_pages rest st st' e listed)

  -- A write to an inspector.
  pub written :
      (st : Store W) (inspector : ℕ) (iwi : Iwi)
      → IsSound st
      → IsKept st (record st { iwis = update st.iwis inspector (some iwi) })
  written st inspector iwi h = record {
    sound = set_iwi-IsSound st inspector iwi h;
    iwss_live = λ c l. l;
    iwis_live = λ i l. update-IsLive st.iwis inspector iwi i l;
  }

  module _ (calls : Calls W) where
    drop_page-Returns :
        (st : Store W) (inspector at : ℕ)
        → IsSound st
        → IsLive st.iwis inspector
        → IsLive st.ipages at
        → Returns (drop_page calls inspector at st) (λ r st'. IsKept st st' × KeepsOthers at st st')
    unfolding drop_page
    drop_page-Returns st inspector at h iwi_live page_live =
        Returns-bind (stop_devtools calls at st) _ (λ r st'. IsStopped st at st')
          (λ r st'. IsKept st st' × KeepsOthers at st st')
          (stop_devtools-Returns calls st at h page_live)
          (λ r st1 stopped.
            let (ipage, page_at) = stopped.ipages_live at page_live in
            let (iwi, iwi_at) = iwi_live in
            let iwi_now : st1.iwis inspector ≡ some iwi = rw stopped.same_iwis iwi_at in
            let iwi' = record iwi {
              page_num_to_ipage = (remove int_keys iwi.page_num_to_ipage ipage.page_num).1;
            } in
            rw (Returns, ◌>>=◌, ◌>>◌, page_at, iwi_now)
              (
                record {
                  sound =
                      free_ipage-IsSound
                        (record st1 { iwis = update st1.iwis inspector (some iwi') }) at
                        (set_iwi-IsSound st1 inspector iwi' stopped.sound) stopped.unlinked;
                  iwss_live = stopped.iwss_live;
                  iwis_live =
                      λ i l. update-IsLive st1.iwis inspector iwi' i (rw stopped.same_iwis l);
                },
                λ q ne live.
                    let (page, found) = stopped.ipages_live q live in
                    (page, update_ne st1.ipages at none q ne ∙ found),
              ))

    pub drop_pages-Returns :
        (test : Ipage → Bool) (st : Store W) (inspector : ℕ) (ipages : List ℕ)
        → IsSound st
        → IsLive st.iwis inspector
        → AreListed st ipages
        → Returns (drop_pages calls test inspector ipages st) (λ r st'. IsKept st st')
    unfolding drop_pages
    drop_pages-Returns test st inspector [] h iwi_live listed = IsKept-refl h
    drop_pages-Returns test st inspector (at ∷ rest) h iwi_live ((ipage, page_at), fresh, listed) =
        rw (Returns, ◌>>=◌, page_at)
          (elim (Bool-cases (test ipage)) [
            | inr e ↦
                rw (e, ◌>>◌, ◌>>=◌) (drop_pages-Returns test st inspector rest h iwi_live listed)
            | inl e ↦
                rw (e, ◌>>◌, ◌>>=◌)
                  (Returns-bind (drop_page calls inspector at st) _
                    (λ r st'. IsKept st st' × KeepsOthers at st st') (λ r st'. IsKept st st')
                    (drop_page-Returns st inspector at h iwi_live (ipage, page_at))
                    (λ r st1 (out : IsKept st st1 × KeepsOthers at st st1).
                      Returns-mono (drop_pages calls test inspector rest st1)
                        (λ r st'. IsKept st1 st') (λ r st'. IsKept st st')
                        (drop_pages-Returns test st1 inspector rest out.0.sound
                          (out.0.iwis_live inspector iwi_live)
                          (AreListed-others at st st1 rest out.1 fresh listed))
                        (λ r st' more. IsKept-trans out.0 more)))
          ])

    -- On sound links, for a live inspector whose pages are live and all different: iwdp_remove_app_id
    -- returns success, the links stay sound, and no client and no inspector is freed.
    pub remove_app_id-IsSound :
        (st : Store W) (inspector : ℕ) (iwi : Iwi) (app_id : String)
        → IsSound st
        → st.iwis inspector ≡ some iwi
        → AreListed st (values iwi.page_num_to_ipage)
        → Returns (remove_app_id calls inspector app_id st) (λ r st'. (r ≡ success) × IsKept st st')
    unfolding remove_app_id
    remove_app_id-IsSound st inspector iwi app_id h iwi_at listed =
        let r = get_key text_keys iwi.app_id_to_true (some app_id) in
        let without = record iwi { app_id_to_true = (remove text_keys r.1 (some app_id)).1 } in
        rw (Returns, ◌>>=◌, iwi_at)
          (elim (Bool-cases (is_there r.0)) [
            | inr e ↦
                rw (e, ◌>>◌, ◌>>=◌)
                  (refl, written st inspector (record iwi { app_id_to_true = r.1 }) h)
            | inl e ↦
                rw (e, ◌>>◌, ◌>>=◌)
                  (Returns-bind
                    (drop_pages calls (is_of_app app_id) inspector (values iwi.page_num_to_ipage)
                      (record st { iwis = update st.iwis inspector (some without) }))
                    _
                    (λ r st'.
                      IsKept (record st { iwis = update st.iwis inspector (some without) }) st')
                    (λ r st'. (r ≡ success) × IsKept st st')
                    (drop_pages-Returns (is_of_app app_id)
                      (record st { iwis = update st.iwis inspector (some without) }) inspector
                      (values iwi.page_num_to_ipage) (set_iwi-IsSound st inspector without h)
                      (without, update_self st.iwis inspector (some without))
                      (same_pages (values iwi.page_num_to_ipage) st
                        (record st { iwis = update st.iwis inspector (some without) }) refl listed))
                    (λ r st' out. (refl, IsKept-trans (written st inspector without h) out)))
          ])
