-- ===== src/Iwdp/Pages/Added.antt =====
-- src/ios_webkit_debug_proxy.c: the pages that a listing adds and changes.
use Prim.Native.String.{String}
use ios_webkit_debug_proxy.Prelude.{
  ℕ, ◌+◌, ◌≡◌, inl, inr, refl, sym, ap, subst, ◌∙◌, Bool, ◌&&◌, Option, some, none, List, [], ◌∷◌,
  Bool-cases, if◌then◌else◌, ◌==◌, equal_texts,
}
use ios_webkit_debug_proxy.HashTable.{put}
use ios_webkit_debug_proxy.HashTable.Keys.{int_keys}
use ios_webkit_debug_proxy.Rpc.Parse.{Page}
use ios_webkit_debug_proxy.Iwdp.{Iwi, Ipage, Store, update, ◌>>=◌, ◌>>◌}
use ios_webkit_debug_proxy.Iwdp.Devtools.Sound.{
  Returns, Returns-bind, Returns-mono, IsLive, IsSound, update_self, update-IsLive,
}
use ios_webkit_debug_proxy.Iwdp.Devtools.Sound.Writes.{set_iws-IsSound, set_iwi-IsSound}
use ios_webkit_debug_proxy.Iwdp.Devtools.Sound.Pages.{set_ipage-IsSound, new_ipage-IsSound}
use ios_webkit_debug_proxy.Iwdp.Pages.{
  next_num, is_claimed, update_string, unlink_client, find_page, new_ipage, found_or_new,
  update_page, add_pages,
}
use ios_webkit_debug_proxy.Iwdp.Pages.Drop.{AreListed, IsKept, IsKept-refl, IsKept-trans}

lost-held :
    (ipage : Ipage) (page : Page) (iwi : Iwi) (client : ℕ)
    → (if is_claimed ipage page iwi then ipage.iws else none) ≡ some client
    → ipage.iws ≡ some client
lost-held ipage page iwi client e = elim (Bool-cases (is_claimed ipage page iwi)) [
  | inl c ↦ sym (ap (λ (b : Bool). if b then ipage.iws else none) c) ∙ e
  | inr c ↦ cc (e, ap (λ (b : Bool). if b then ipage.iws else none) c)
]

module _ {W : Type 0} where
  -- Nothing is freed.
  pub record IsGrown (st st' : Store W) : Type 0 where
    pub kept : IsKept st st'
    pub ipages_live : (q : ℕ) → IsLive st.ipages q → IsLive st'.ipages q

  abbrev pub AreLive : Store W → List ℕ → Type 0
  AreLive st [] = Unit {0}
  AreLive st (at ∷ rest) = IsLive st.ipages at × AreLive st rest

  pub AreListed-AreLive : (st : Store W) (ipages : List ℕ) → AreListed st ipages → AreLive st ipages
  AreListed-AreLive st [] listed = tt
  AreListed-AreLive st (at ∷ rest) (live, fresh, listed) = (live, AreListed-AreLive st rest listed)

  AreLive-grown :
      (st st' : Store W) (ipages : List ℕ) → IsGrown st st' → AreLive st ipages → AreLive st' ipages
  AreLive-grown st st' [] g live = tt
  AreLive-grown st st' (at ∷ rest) g (here, live) =
      (g.ipages_live at here, AreLive-grown st st' rest g live)

  pub AreListed-grown :
      (st st' : Store W) (ipages : List ℕ)
      → IsGrown st st'
      → AreListed st ipages
      → AreListed st' ipages
  AreListed-grown st st' [] g listed = tt
  AreListed-grown st st' (at ∷ rest) g (here, fresh, listed) =
      (g.ipages_live at here, fresh, AreListed-grown st st' rest g listed)

  IsGrown-trans : {a b c : Store W} → IsGrown a b → IsGrown b c → IsGrown a c
  IsGrown-trans f g = record {
    kept = IsKept-trans f.kept g.kept;
    ipages_live = λ q l. g.ipages_live q (f.ipages_live q l);
  }

  find_page-Returns :
      (st : Store W) (app_id : String) (page_id : ℕ) (ipages : List ℕ)
      → AreLive st ipages
      → Returns
          (find_page app_id page_id ipages st)
          (λ r st'. (st' ≡ st) × ((at : ℕ) → r ≡ some at → IsLive st.ipages at))
  unfolding find_page
  find_page-Returns st app_id page_id [] live = (refl, λ at e. cc e)
  find_page-Returns st app_id page_id (at ∷ rest) ((ipage, page_at), live) =
      rw (Returns, ◌>>=◌, page_at)
        (elim (Bool-cases (ipage.page_id == page_id && equal_texts app_id ipage.app_id)) [
          | inl e ↦ rw e (
            refl,
            λ q same. (ipage, subst (λ (o : ℕ). st.ipages o ≡ some ipage) (cc same) page_at),
          )
          | inr e ↦ rw e (find_page-Returns st app_id page_id rest live)
        ])

  found_or_new-Returns :
      (st : Store W) (inspector : ℕ) (app_id : String) (page_id : ℕ) (found : Option ℕ)
      → IsSound st
      → IsLive st.iwis inspector
      → ((at : ℕ) → found ≡ some at → IsLive st.ipages at)
      → Returns
          (found_or_new inspector app_id page_id found st)
          (λ at st'. IsGrown st st' × IsLive st'.ipages at)
  unfolding found_or_new new_ipage
  found_or_new-Returns st inspector app_id page_id (some at) h iwi_live live =
      (record { kept = IsKept-refl h; ipages_live = λ q l. l }, live at refl)
  found_or_new-Returns st inspector app_id page_id none h (iwi, iwi_at) live =
      let ipage : Ipage = record {
        page_num = next_num iwi;
        app_id = app_id;
        page_id = page_id;
        connection_id = none;
        title = none;
        url = none;
        sender_id = none;
        iws = none;
      } in
      let iwi' = record iwi {
        max_page_num = next_num iwi;
        page_num_to_ipage = (put int_keys iwi.page_num_to_ipage (next_num iwi) (some st.next)).1;
      } in
      let st1 = record st { ipages = update st.ipages st.next (some ipage); next = st.next + 1 } in
      rw (Returns, ◌>>=◌, iwi_at)
        (
          record {
            kept = record {
              sound = set_iwi-IsSound st1 inspector iwi' (new_ipage-IsSound st ipage h refl);
              iwss_live = λ c l. l;
              iwis_live = λ i l. update-IsLive st.iwis inspector iwi' i l;
            };
            ipages_live = λ q l. update-IsLive st.ipages st.next ipage q l;
          },
          (ipage, update_self st.ipages st.next (some ipage)),
        )

  unlink_client-Returns :
      (st : Store W) (o : Option ℕ)
      → IsSound st
      → ((client : ℕ) → o ≡ some client → IsLive st.iwss client)
      → Returns
          (unlink_client o st)
          (λ r st'. IsKept st st' × (st'.ipages ≡ st.ipages) × (st'.iwis ≡ st.iwis))
  unfolding unlink_client
  unlink_client-Returns st none h live = (IsKept-refl h, refl, refl)
  unlink_client-Returns st (some client) h live =
      let (iws, client_at) = live client refl in
      let iws' = record iws { ipage = none } in
      rw (Returns, ◌>>=◌, client_at)
        (
          record {
            sound = set_iws-IsSound st client iws iws' h client_at refl refl (λ q e. cc e);
            iwss_live = λ c l. update-IsLive st.iwss client iws' c l;
            iwis_live = λ i l. l;
          },
          refl,
          refl,
        )

  update_page-Returns :
      (st : Store W) (inspector : ℕ) (page : Page) (at : ℕ)
      → IsSound st
      → IsLive st.iwis inspector
      → IsLive st.ipages at
      → Returns (update_page inspector page at st) (λ r st'. IsGrown st st')
  unfolding update_page
  update_page-Returns st inspector page at h (iwi, iwi_at) (ipage, page_at) =
      let lost : Option ℕ = if is_claimed ipage page iwi then ipage.iws else none in
      let ipage' = record ipage {
        title = update_string ipage.title page.title;
        url = update_string ipage.url page.url;
        connection_id = update_string ipage.connection_id page.connection_id;
      } in
      let held : (client : ℕ) → lost ≡ some client → IsLive st.iwss client =
        λ client e. h.holder_live at client ipage page_at (lost-held ipage page iwi client e) in
      rw (Returns, ◌>>=◌, ◌>>◌, iwi_at, page_at)
        (Returns-bind (unlink_client lost st) _
          (λ r st'. IsKept st st' × (st'.ipages ≡ st.ipages) × (st'.iwis ≡ st.iwis))
          (λ r st'. IsGrown st st') (unlink_client-Returns st lost h held)
          (λ r st1 out. record {
            kept = record {
              sound =
                  set_ipage-IsSound st1 at ipage ipage' out.0.sound (rw out.1 page_at) refl refl;
              iwss_live = out.0.iwss_live;
              iwis_live = out.0.iwis_live;
            };
            ipages_live = λ q l. update-IsLive st1.ipages at ipage' q (rw out.1 l);
          }))

  pub add_pages-Returns :
      (st : Store W) (inspector : ℕ) (app_id : String) (ipages : List ℕ) (pages : List Page)
      → IsSound st
      → IsLive st.iwis inspector
      → AreLive st ipages
      → Returns (add_pages inspector app_id ipages pages st) (λ r st'. IsGrown st st')
  unfolding add_pages
  add_pages-Returns st inspector app_id ipages [] h iwi_live live = record {
    kept = IsKept-refl h;
    ipages_live = λ q l. l;
  }
  add_pages-Returns st inspector app_id ipages (page ∷ pages) h iwi_live live =
      Returns-bind (find_page app_id page.page_id ipages st) _
        (λ r st'. (st' ≡ st) × ((at : ℕ) → r ≡ some at → IsLive st.ipages at))
        (λ r st'. IsGrown st st') (find_page-Returns st app_id page.page_id ipages live)
        (λ found st0 searched. rw searched.0 (
          Returns-bind (found_or_new inspector app_id page.page_id found st) _
            (λ at st'. IsGrown st st' × IsLive st'.ipages at) (λ r st'. IsGrown st st')
            (found_or_new-Returns st inspector app_id page.page_id found h iwi_live searched.1)
            (λ at st1 there.
              Returns-bind (update_page inspector page at st1) _ (λ r st'. IsGrown st1 st')
                (λ r st'. IsGrown st st')
                (update_page-Returns st1 inspector page at there.0.kept.sound
                  (there.0.kept.iwis_live inspector iwi_live) there.1)
                (λ r st2 (more : IsGrown st1 st2).
                  let g = IsGrown-trans there.0 more in
                  Returns-mono (add_pages inspector app_id ipages pages st2)
                    (λ r st'. IsGrown st2 st') (λ r st'. IsGrown st st')
                    (add_pages-Returns st2 inspector app_id ipages pages g.kept.sound
                      (g.kept.iwis_live inspector iwi_live) (AreLive-grown st st2 ipages g live))
                    (λ r st' rest. IsGrown-trans g rest)))))
