-- ===== src/Iwdp/Devtools/Released.antt =====
-- src/ios_webkit_debug_proxy.c: what is left when a page has been given up.
use Prim.Native.String.{String}
use ios_webkit_debug_proxy.Prelude.{
  ℕ, ◌≡◌, ◌≢◌, inl, inr, refl, sym, ap, subst, ◌∙◌, true, Option, some, none, arith, Bool-cases,
}
use ios_webkit_debug_proxy.HashTable.{HashTable, get_value}
use ios_webkit_debug_proxy.HashTable.Table.{view, IsValid}
use ios_webkit_debug_proxy.HashTable.Ops.{get_value_lem}
use ios_webkit_debug_proxy.Iwdp.{
  Iport, Iws, Ipage, Store, update, text_keys, text_keys-IsLawful, is_pointer, same_text,
}
use ios_webkit_debug_proxy.Iwdp.Devtools.Sound.{
  Registered, IsLive, IsSound, IsUnlinked, update_self, update-cases, update-IsLive, some-same,
}
use ios_webkit_debug_proxy.Iwdp.Devtools.Sound.Writes.{
  set_iport-IsSound, rewritten, rewritten-IsSound,
}

-- The links are sound and nobody has the page; inspectors, live pages and live clients stay, a page
-- is held only by who held it and no longer by a client that had this page, and clients are still
-- registered.
pub record IsStopped {W : Type 0} (st : Store W) (at : ℕ) (st' : Store W) : Type 0 where
  pub sound : IsSound st'
  pub unlinked : IsUnlinked st' at
  pub ipages_live : (q : ℕ) → IsLive st.ipages q → IsLive st'.ipages q
  pub iwss_live : (c : ℕ) → IsLive st.iwss c → IsLive st'.iwss c
  pub same_iwis : st'.iwis ≡ st.iwis
  pub holders :
      (q c : ℕ) (now : Ipage)
      → st'.ipages q ≡ some now
      → now.iws ≡ some c
      → (ipage : Ipage) × (st.ipages q ≡ some ipage) × (ipage.iws ≡ some c)
  pub released :
      (c : ℕ) (iws : Iws) (now : Ipage)
      → st.iwss c ≡ some iws
      → iws.ipage ≡ some at
      → st'.ipages at ≡ some now
      → now.iws ≢ some c
  pub still_registered : (c : ℕ) (iws : Iws) → st.iwss c ≡ some iws → Registered st'.iports c iws

pub is_pointer-eq : (o : Option ℕ) (p : ℕ) → is_pointer o p ≡ true → o ≡ some p
is_pointer-eq none p h = cc h
is_pointer-eq (some q) p h = ap some (ground (arith, h))

pub is_pointer_refl : (p : ℕ) → is_pointer (some p) p ≡ true
is_pointer_refl p = ground arith

-- `ht_get_value` leaves the same map.
pub get_value-view :
    (t : HashTable (Option String) ℕ) (k k' : Option String)
    → IsValid text_keys t
    → view text_keys (get_value text_keys t k).1 k' ≡ view text_keys t k'
get_value-view t k k' valid =
    let (answer, updated) = get_value_lem text_keys text_keys-IsLawful t k valid in
    elim (Bool-cases (same_text k k')) [
      | inl e ↦
          let same = text_keys-IsLawful.same k k' e in
          subst (λ j. view text_keys (get_value text_keys t k).1 j ≡ view text_keys t j) same
            updated.here
      | inr e ↦ updated.elsewhere k' (λ (q : k ≡ k'). cc (e, text_keys-IsLawful.itself k, q))
    ]

module _ {W : Type 0} where
  -- Where the page is not held, nothing has to be done.
  pub untouched : (st : Store W) (at : ℕ) → IsSound st → IsUnlinked st at → IsStopped st at st
  untouched st at h free = record {
    sound = h;
    unlinked = free;
    ipages_live = λ q l. l;
    iwss_live = λ c l. l;
    same_iwis = refl;
    holders = λ q c now found is_holder. (now, found, is_holder);
    released = λ c iws now live holds found. absurd (free c iws live holds);
    still_registered = h.registered;
  }

  -- The page at `at`, if a client has it, is that of `client`.
  pub holder_unique :
      (st : Store W) (at client c : ℕ) (ipage : Ipage) (other : Iws)
      → IsSound st
      → st.ipages at ≡ some ipage
      → ipage.iws ≡ some client
      → st.iwss c ≡ some other
      → other.ipage ≡ some at
      → c ≡ client
  holder_unique st at client c ipage other h page_at owner live holds =
      let (page, found, held) = h.linked c at other live holds in
      let same : page ≡ ipage = some-same found page_at in
      some-same (sym (ap (λ o. o.iws) same) ∙ held.owner) owner

  -- The writes of `iwdp_stop_devtools`.
  pub given_up :
      (st : Store W) (at client : ℕ) (ipage : Ipage) (iws : Iws)
      → IsSound st
      → st.ipages at ≡ some ipage
      → ipage.iws ≡ some client
      → st.iwss client ≡ some iws
      → IsStopped st at (
          rewritten st at client
            (record ipage { iws = none; sender_id = none })
            (record iws { ipage = none; page_num = 0 }))
  given_up st at client ipage iws h page_at owner client_at =
      let ipage' = record ipage { iws = none; sender_id = none } in
      let iws' = record iws { ipage = none; page_num = 0 } in
      record {
        sound =
            rewritten-IsSound st at client ipage ipage' iws iws' h page_at client_at refl refl
              (λ q bad. cc bad)
              (λ c other ne live holds.
                absurd (ne (holder_unique st at client c ipage other h page_at owner live holds)))
              (λ c bad. cc bad);
        unlinked = λ c other live holds. elim (update-cases st.iwss client iws' c other live) [
          | inl (e, is_new) ↦ cc (holds, ap (λ o. o.ipage) is_new)
          | inr (ne, before) ↦
              ne (holder_unique st at client c ipage other h page_at owner before holds)
        ];
        ipages_live = λ q l. update-IsLive st.ipages at ipage' q l;
        iwss_live = λ c l. update-IsLive st.iwss client iws' c l;
        same_iwis = refl;
        holders = λ q c now found is_holder. elim (update-cases st.ipages at ipage' q now found) [
          | inl (e, is_new) ↦ cc (is_holder, ap (λ o. o.iws) is_new)
          | inr (ne, before) ↦ (now, before, is_holder)
        ];
        released = λ c other now live holds found is_holder.
            let is_new = some-same (update_self st.ipages at (some ipage')) found in
            cc (is_holder, ap (λ o. o.iws) is_new);
        still_registered = h.registered;
      }

  pub unheld :
      (st : Store W) (at : ℕ) (ipage : Ipage)
      → IsSound st
      → st.ipages at ≡ some ipage
      → ipage.iws ≡ none
      → IsStopped st at st
  unheld st at ipage h page_at owner = untouched st at h (λ c other live holds.
      let (page, found, held) = h.linked c at other live holds in
      cc (owner, held.owner, some-same found page_at))

  -- The store when the table of the port has been searched.
  abbrev pub searched : Store W → ℕ → Iport → Option String → Store W
  searched st p iport ws_id = record st {
    iports =
        update st.iports p
          (some (record iport { ws_id_to_iws = (get_value text_keys iport.ws_id_to_iws ws_id).1 }));
  }

  pub searched-IsSound :
      (st : Store W) (p : ℕ) (iport : Iport) (ws_id : Option String)
      → IsSound st
      → st.iports p ≡ some iport
      → IsSound (searched st p iport ws_id)
  searched-IsSound st p iport ws_id h port_at =
      let valid = h.valid p iport port_at in
      let (answer, updated) =
        get_value_lem text_keys text_keys-IsLawful iport.ws_id_to_iws ws_id valid in
      let iport' = record iport {
        ws_id_to_iws = (get_value text_keys iport.ws_id_to_iws ws_id).1;
      } in
      set_iport-IsSound st p iport iport' h port_at updated.valid
        (λ k. get_value-view iport.ws_id_to_iws ws_id k valid) refl
