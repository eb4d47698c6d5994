-- ===== src/Iwdp.antt =====
-- src/ios_webkit_debug_proxy.c: the objects of the proxy and the links between them.
--
-- An object is found at its address, which is not used again when the object is freed. A NULL
-- pointer is `none`; reading an object at NULL, or one that was freed, is a fault, and so is a call
-- through a NULL `self`. A string that is only compared is a text, and every allocation succeeds.
pub mod Frontend
pub mod Escape
pub mod Devtools
pub mod Pages
pub mod Frames
use Prim.Native.String.{String}
use ios_webkit_debug_proxy.Prelude.{
  ℕ, zero, suc, ◌+◌, ◌≡◌, refl, ap, Bool, true, false, Option, some, none, List, equal_texts,
  equal_texts_iff, equal_texts_refl, codes, ◌==◌, if◌then◌else◌, arith,
}
use ios_webkit_debug_proxy.Prelude.Status.{Status, success, error}
use ios_webkit_debug_proxy.HashTable.{KeyFunctions, HashTable}
use ios_webkit_debug_proxy.HashTable.Bucket.{IsLawful}
use ios_webkit_debug_proxy.HashTable.Keys.{on_strhash}
use ios_webkit_debug_proxy.Rpc.Parse.{App}

-- The functions of `HT_STRING_KEYS` on texts.
abbrev pub same_text : Option String → Option String → Bool
same_text none none = true
same_text none (some t) = false
same_text (some s) none = false
same_text (some s) (some t) = equal_texts s t

abbrev pub hash_text : Option String → ℕ
hash_text none = on_strhash none
hash_text (some s) = on_strhash (some (codes s))

abbrev pub text_keys : KeyFunctions (Option String)
text_keys = record { on_hash = hash_text; on_cmp = same_text }

-- `struct iwdp_iport_struct`
pub record Iport : Type 0 where
  pub port : ℕ
  pub is_sticky : Bool
  pub ws_id_to_iws : HashTable (Option String) ℕ
  pub device_id : Option String
  pub device_name : Option String
  pub iwi : Option ℕ

-- `struct iwdp_iwi_struct`
pub record Iwi : Type 0 where
  pub iport : Option ℕ
  pub connection_id : Option String
  pub app : Option App
  pub connected : Bool
  pub max_page_num : ℕ
  pub app_id_to_true : HashTable (Option String) ℕ
  pub page_num_to_ipage : HashTable ℕ ℕ

-- `struct iwdp_iws_struct`
pub record Iws : Type 0 where
  pub iport : ℕ
  pub ws_id : String
  pub page_num : ℕ
  pub ipage : Option ℕ

-- `struct iwdp_ipage_struct`
pub record Ipage : Type 0 where
  pub page_num : ℕ
  pub app_id : String
  pub page_id : ℕ
  pub connection_id : Option String
  pub title : Option String
  pub url : Option String
  pub sender_id : Option String
  pub iws : Option ℕ

-- The live objects, the address of the next one, and what the calls out of this file act on.
pub record Store (W : Type 0) : Type 0 where
  pub iports : ℕ → Option Iport
  pub iwis : ℕ → Option Iwi
  pub iwss : ℕ → Option Iws
  pub ipages : ℕ → Option Ipage
  pub next : ℕ
  pub world : W

-- The texts that a close frame is sent with: for a page that a client has lost, the port and the
-- number of the page, and whether a client has it here or not.
pub data Reason : Type 0 where
  no_reason : Reason
  clients_must_mask : Reason
  inspector_closed : Reason
  page_not_found : ℕ → ℕ → Reason
  page_claimed : ℕ → ℕ → Bool → Reason

-- The functions of `rpc` of an inspector, and of `ws` of a client, that are called.
pub record Calls (W : Type 0) : Type 0 where
  pub send_forward_get_listing : ℕ → Option String → String → W → Status × W
  pub send_forward_socket_setup : ℕ → Option String → String → ℕ → Option String → W → Status × W
  pub send_forward_socket_data :
      ℕ → Option String → String → ℕ → Option String → List ℕ → W → Status × W
  pub send_forward_did_close : ℕ → Option String → String → ℕ → Option String → W → Status × W
  pub send_frame : ℕ → Bool → ℕ → Bool → List ℕ → W → Status × W
  pub send_close : ℕ → ℕ → Reason → W → Status × W

-- `none` is a fault.
abbrev pub M : Type 0 → Type 0 → Type 0
M W A = Store W → Option (A × Store W)

abbrev pub update : {A : Type 0} → (ℕ → Option A) → ℕ → Option A → ℕ → Option A
update f p v q = if q == p then v else f q

module _ {W : Type 0} where
  abbrev pub pure : {A : Type 0} → A → M W A
  pure a st = some (a, st)

  abbrev pub fault : {A : Type 0} → M W A
  fault st = none

  infixl 5 ◌>>=◌ ◌>>◌
  abbrev pub ◌>>=◌ : {A B : Type 0} → M W A → (A → M W B) → M W B
  ◌>>=◌ m f st = elim (m st) [ none ↦ none | some (a, st') ↦ f a st' ]

  abbrev pub ◌>>◌ : {B : Type 0} → M W (Unit {0}) → M W B → M W B
  m >> k = m >>= λ _. k

  abbrev pub fetch : {A : Type 0} → Option A → M W A
  fetch none st = none
  fetch (some a) st = some (a, st)

  abbrev pub get_iport : ℕ → M W Iport
  get_iport p st = fetch (st.iports p) st

  abbrev pub get_iwi : ℕ → M W Iwi
  get_iwi p st = fetch (st.iwis p) st

  abbrev pub get_iws : ℕ → M W Iws
  get_iws p st = fetch (st.iwss p) st

  abbrev pub get_ipage : ℕ → M W Ipage
  get_ipage p st = fetch (st.ipages p) st

  -- A write to a live object.
  abbrev pub set_iport : ℕ → Iport → M W (Unit {0})
  set_iport p v st = some (tt, record st { iports = update st.iports p (some v) })

  abbrev pub set_iwi : ℕ → Iwi → M W (Unit {0})
  set_iwi p v st = some (tt, record st { iwis = update st.iwis p (some v) })

  abbrev pub set_iws : ℕ → Iws → M W (Unit {0})
  set_iws p v st = some (tt, record st { iwss = update st.iwss p (some v) })

  abbrev pub set_ipage : ℕ → Ipage → M W (Unit {0})
  set_ipage p v st = some (tt, record st { ipages = update st.ipages p (some v) })

  abbrev pub free_ipage : ℕ → M W (Unit {0})
  free_ipage p st = some (tt, record st { ipages = update st.ipages p none })

  abbrev pub free_iws : ℕ → M W (Unit {0})
  free_iws p st = some (tt, record st { iwss = update st.iwss p none })

  -- A call that leaves the objects alone.
  abbrev pub call : (W → Status × W) → M W Status
  call f st = let (ret, w) = f st.world in some (ret, record st { world = w })

abbrev pub is_pointer : Option ℕ → ℕ → Bool
is_pointer none p = false
is_pointer (some q) p = q == p

same_text-same : (a b : Option String) → same_text a b ≡ true → a ≡ b
same_text-same none none h = refl
same_text-same none (some t) h = cc h
same_text-same (some s) none h = cc h
same_text-same (some s) (some t) h = ap some ((equal_texts_iff s t).0 h)

same_text-itself : (a : Option String) → same_text a a ≡ true
same_text-itself none = refl
same_text-itself (some s) = equal_texts_refl s

pub text_keys-IsLawful : IsLawful text_keys
text_keys-IsLawful = record { same = same_text-same; itself = same_text-itself }
