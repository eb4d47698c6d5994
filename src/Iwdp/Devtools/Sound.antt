-- ===== src/Iwdp/Devtools/Sound.antt =====
-- src/ios_webkit_debug_proxy.c: the links between clients and pages.
pub mod Writes
pub mod Pages
use Prim.Native.String.{String}
use ios_webkit_debug_proxy.Prelude.{
  ℕ, zero, suc, ◌+◌, ◌<◌, ◌≤◌, ◌≡◌, ◌≢◌, refl, sym, ap, subst, ◌∙◌, Bool, true, false, Option, some,
  none, arith, ℕ_discrete, ◌⊎◌, inl, inr, ◌==◌, if◌then◌else◌,
}
use ios_webkit_debug_proxy.HashTable.{HashTable}
use ios_webkit_debug_proxy.HashTable.Table.{view, IsValid}
use ios_webkit_debug_proxy.Iwdp.{Iport, Iwi, Iws, Ipage, Store, Calls, M, update, text_keys}

-- The outcome of a run: no fault, and `Q` of what it answers and leaves.
abbrev pub Returns : {W A : Type 0} → Option (A × Store W) → (A → Store W → Type 0) → Type 0
Returns none Q = ⊥
Returns (some (a, st)) Q = Q a st

-- A run of two parts.
pub Returns-bind :
    {W A B : Type 0} (m : Option (A × Store W)) (f : A → Store W → Option (B × Store W))
    (P : A → Store W → Type 0) (Q : B → Store W → Type 0)
    → Returns m P
    → ((a : A) (st : Store W) → P a st → Returns (f a st) Q)
    → Returns (elim m as (λ o. Option (B × Store W)) [ none ↦ none | some (a, st) ↦ f a st ]) Q
Returns-bind none f P Q h k = h
Returns-bind (some (a, st)) f P Q h k = k a st h

pub Returns-mono :
    {W A : Type 0} (m : Option (A × Store W)) (P Q : A → Store W → Type 0)
    → Returns m P
    → ((a : A) (st : Store W) → P a st → Q a st)
    → Returns m Q
Returns-mono none P Q h k = h
Returns-mono (some (a, st)) P Q h k = k a st h

-- The page knows the client that holds it.
pub record IsHeld (ipage : Ipage) (client : ℕ) (iws : Iws) : Type 0 where
  pub owner : ipage.iws ≡ some client
  pub sender : ipage.sender_id ≡ some iws.ws_id

abbrev pub Linked : (ℕ → Option Ipage) → ℕ → ℕ → Iws → Type 0
Linked ipages at client iws = (ipage : Ipage) × (ipages at ≡ some ipage) × IsHeld ipage client iws

abbrev pub Registered : (ℕ → Option Iport) → ℕ → Iws → Type 0
Registered iports client iws =
    (iport : Iport) × (iports iws.iport ≡ some iport)
    × (view text_keys iport.ws_id_to_iws (some iws.ws_id) ≡ some client)

abbrev pub IsLive : {A : Type 0} → (ℕ → Option A) → ℕ → Type 0
IsLive {A} f p = (a : A) × (f p ≡ some a)

module _ {W : Type 0} where
  -- A client's page is live and held by it, every client is found under its id, and what a page, a
  -- port and an inspector point to is live.
  pub record IsSound (st : Store W) : Type 0 where
    pub linked :
        (client at : ℕ) (iws : Iws)
        → st.iwss client ≡ some iws
        → iws.ipage ≡ some at
        → Linked st.ipages at client iws
    pub registered :
        (client : ℕ) (iws : Iws) → st.iwss client ≡ some iws → Registered st.iports client iws
    pub valid :
        (p : ℕ) (iport : Iport) → st.iports p ≡ some iport → IsValid text_keys iport.ws_id_to_iws
    pub holder_live :
        (at client : ℕ) (ipage : Ipage)
        → st.ipages at ≡ some ipage
        → ipage.iws ≡ some client
        → IsLive st.iwss client
    pub inspector_live :
        (p inspector : ℕ) (iport : Iport)
        → st.iports p ≡ some iport
        → iport.iwi ≡ some inspector
        → IsLive st.iwis inspector
    pub unused : (at : ℕ) → st.next ≤ at → st.ipages at ≡ none

  -- No client holds the page.
  abbrev pub IsUnlinked : Store W → ℕ → Type 0
  IsUnlinked st at = (client : ℕ) (iws : Iws) → st.iwss client ≡ some iws → iws.ipage ≢ some at

module _ {A : Type 0} (f : ℕ → Option A) (p : ℕ) (v : Option A) where
  pub update_self : update f p v p ≡ v
  update_self = ground arith

  pub update_ne : (q : ℕ) → q ≢ p → update f p v q ≡ f q
  update_ne q h = ground arith

pub update-cases :
    {A : Type 0} (f : ℕ → Option A) (p : ℕ) (v : A) (q : ℕ) (x : A)
    → update f p (some v) q ≡ some x
    → ((q ≡ p) × (v ≡ x)) ⊎ ((q ≢ p) × (f q ≡ some x))
update-cases f p v q x h = elim (ℕ_discrete q p) [
  | yes e ↦ inl (e, ground (arith, h, e))
  | no ne ↦ inr (ne, sym (update_ne f p (some v) q ne) ∙ h)
]

pub update-none-cases :
    {A : Type 0} (f : ℕ → Option A) (p q : ℕ) (x : A)
    → update f p none q ≡ some x
    → (q ≢ p) × (f q ≡ some x)
update-none-cases f p q x h = elim (ℕ_discrete q p) [
  | yes e ↦ let gone : update f p none q ≡ none = ground (arith, e) in cc (h, gone)
  | no ne ↦ (ne, sym (update_ne f p none q ne) ∙ h)
]

pub update-IsLive :
    {A : Type 0} (f : ℕ → Option A) (p : ℕ) (v : A) (q : ℕ)
    → IsLive f q
    → IsLive (update f p (some v)) q
update-IsLive f p v q (a, h) = elim (ℕ_discrete q p) [
  | yes e ↦ (v, rw e (update_self f p (some v)))
  | no ne ↦ (a, update_ne f p (some v) q ne ∙ h)
]

pub some-same {ℓ} : {A : Type ℓ} {o : Option A} {a b : A} → o ≡ some a → o ≡ some b → a ≡ b
some-same p q = cc (p, q)
