-- ===== src/Iwdp/Devtools/Sound/Pages.antt =====
-- src/ios_webkit_debug_proxy.c: writes to pages that keep the links.
use ios_webkit_debug_proxy.Prelude.{
  ℕ, ◌+◌, ◌≤◌, ◌≡◌, ◌≢◌, sym, ap, subst, ◌∙◌, some, none, arith, ℕ_discrete, inl, inr,
}
use ios_webkit_debug_proxy.Iwdp.{Ipage, Store, update}
use ios_webkit_debug_proxy.Iwdp.Devtools.Sound.{
  IsSound, IsUnlinked, update_self, update_ne, update-cases, update-none-cases, some-same,
}

module _ {W : Type 0} where
  -- A page is written that keeps its client.
  pub set_ipage-IsSound :
      (st : Store W) (at : ℕ) (ipage ipage' : Ipage)
      → IsSound st
      → st.ipages at ≡ some ipage
      → ipage'.iws ≡ ipage.iws
      → ipage'.sender_id ≡ ipage.sender_id
      → IsSound (record st { ipages = update st.ipages at (some ipage') })
  set_ipage-IsSound st at ipage ipage' h page_at same_iws same_sender = record {
    linked = λ c q other live holds.
        let (page, found, held) = h.linked c q other live holds in
        elim (ℕ_discrete q at) [
          | yes e ↦
              let is_page : ipage ≡ page =
                some-same page_at (subst (λ r. st.ipages r ≡ some page) e found) in
              (
                ipage',
                rw e (update_self st.ipages at (some ipage')),
                record {
                  owner = same_iws ∙ ap (λ o. o.iws) is_page ∙ held.owner;
                  sender = same_sender ∙ ap (λ o. o.sender_id) is_page ∙ held.sender;
                },
              )
          | no ne ↦ (page, update_ne st.ipages at (some ipage') q ne ∙ found, held)
        ];
    registered = h.registered;
    valid = h.valid;
    holder_live = λ q c page found is_holder. elim (update-cases st.ipages at ipage' q page found) [
      | inl (e, is_new) ↦
          h.holder_live at c ipage page_at (sym same_iws ∙ ap (λ o. o.iws) is_new ∙ is_holder)
      | inr (ne, before) ↦ h.holder_live q c page before is_holder
    ];
    inspector_live = h.inspector_live;
    unused = λ q behind. elim (ℕ_discrete q at) [
      | yes e ↦ cc (page_at, h.unused at (subst (λ n. st.next ≤ n) e behind))
      | no ne ↦ update_ne st.ipages at (some ipage') q ne ∙ h.unused q behind
    ];
  }

  -- A page without a client is made at the next address.
  pub new_ipage-IsSound :
      (st : Store W) (ipage : Ipage)
      → IsSound st
      → ipage.iws ≡ none
      → IsSound (record st { ipages = update st.ipages st.next (some ipage); next = st.next + 1 })
  new_ipage-IsSound st ipage h free = record {
    linked = λ c q other live holds.
        let (page, found, held) = h.linked c q other live holds in
        let old : q ≢ st.next = λ e.
          let none_there = h.unused st.next (omega arith) in
          cc (none_there, subst (λ r. st.ipages r ≡ some page) e found) in
        (page, update_ne st.ipages st.next (some ipage) q old ∙ found, held);
    registered = h.registered;
    valid = h.valid;
    holder_live = λ q c page found is_holder.
        elim (update-cases st.ipages st.next ipage q page found) [
          | inl (e, is_new) ↦ cc (free, ap (λ o. o.iws) is_new, is_holder)
          | inr (ne, before) ↦ h.holder_live q c page before is_holder
        ];
    inspector_live = h.inspector_live;
    unused = λ q behind.
        update_ne st.ipages st.next (some ipage) q (λ e. absurd (omega (arith, e, behind)))
        ∙ h.unused q (omega (arith, behind));
  }

  -- A page that no client has is freed.
  pub free_ipage-IsSound :
      (st : Store W) (at : ℕ)
      → IsSound st
      → IsUnlinked st at
      → IsSound (record st { ipages = update st.ipages at none })
  free_ipage-IsSound st at h free = record {
    linked = λ c q other live holds.
        let (page, found, held) = h.linked c q other live holds in
        elim (ℕ_discrete q at) [
          | yes e ↦ absurd (free c other live (holds ∙ ap some e))
          | no ne ↦ (page, update_ne st.ipages at none q ne ∙ found, held)
        ];
    registered = h.registered;
    valid = h.valid;
    holder_live = λ q c page found is_holder.
        h.holder_live q c page (update-none-cases st.ipages at q page found).1 is_holder;
    inspector_live = h.inspector_live;
    unused = λ q behind. elim (ℕ_discrete q at) [
      | yes e ↦ rw e (update_self st.ipages at none)
      | no ne ↦ update_ne st.ipages at none q ne ∙ h.unused q behind
    ];
  }
