-- ===== src/Rpc/Parse/Laws.antt =====
-- src/rpc.c: the lists of applications and pages hold what the dictionary holds, or nothing.
use Prim.Native.String.{String}
use mathlib.Core.Option
use ios_webkit_debug_proxy.Prelude.{
  ℕ, ◌≡◌, ◌↔◌, refl, ap, inl, inr, Bool, true, Bool-cases, Option, some, none, Option-cases, List,
  [], ◌∷◌, map, arith, equal_texts_iff,
}
use ios_webkit_debug_proxy.Rpc.{RpcApi, dict}
use ios_webkit_debug_proxy.Rpc.Parse.{
  App, Page, parse_app, parse_page, parse_items, parse_dict, parse_apps, parse_pages, is_key_of_app,
  is_key_of_page,
}

module _ (api : RpcApi) where
  open api use {Plist, node}

  abbrev Items : Type 0
  Items = List (Option String × Option Plist)

  module _ {A B : Type 0} (parse : Option Plist → Option A) (name : String → B) (id : A → B) where
    -- Every value of the dictionary is parsed, in order, and every key names what came of its value.
    pub record IsListing (items : Items) (parsed : List A) : Type 0 where
      pub each : map (λ (i : Option String × Option Plist). parse i.1) items ≡ map some parsed
      pub named :
          map (λ (i : Option String × Option Plist). Option.map name i.0) items
          ≡ map (λ a. some (id a)) parsed

    module _ (agrees : String → A → Bool)
        (exact : (k : String) (a : A) → (agrees k a ≡ true) ↔ (name k ≡ id a)) where
      abbrev IsRight : Option String × Option Plist → A → Type 0
      IsRight i a = (parse i.1 ≡ some a) × (Option.map name i.0 ≡ some (id a))

      cons-IsListing :
          (i : Option String × Option Plist) (items : Items) (a : A) (parsed : List A)
          → IsRight i a
          → IsListing items parsed
          → IsListing (i ∷ items) (a ∷ parsed)
      cons-IsListing i items a parsed right h = record {
        each = cc (right.0, h.each);
        named = cc (right.1, h.named);
      }

      parse_items-cons :
          (key : String) (value : Option Plist) (items : Items) (a : A) (parsed : List A)
          → parse value ≡ some a
          → name key ≡ id a
          → parse_items api parse agrees items ≡ some parsed
          → parse_items api parse agrees ((some key, value) ∷ items) ≡ some (a ∷ parsed)
      unfolding parse_items
      parse_items-cons key value items a parsed value_read same rest =
          let right : agrees key a ≡ true = (exact key a).1 same in
          rw (value_read, right, rest, parse_items)

      parse_items-uncons :
          (key : String) (value : Option Plist) (items : Items) (all : List A)
          → parse_items api parse agrees ((some key, value) ∷ items) ≡ some all
          → (a : A) × (parsed : List A) × (parse value ≡ some a)
            × (name key ≡ id a)
            × (parse_items api parse agrees items ≡ some parsed)
            × (all ≡ a ∷ parsed)
      unfolding parse_items
      parse_items-uncons key value items all h = elim (Option-cases (parse value)) [
        | inl e ↦ absurd (ground (arith, h, e))
        | inr (a, e) ↦ elim (Bool-cases (agrees key a)) [
          | inl right ↦ elim (Option-cases (parse_items api parse agrees items)) [
            | inl n ↦ absurd (ground (arith, h, e, right, n))
            | inr (parsed, r) ↦
                (a, parsed, e, (exact key a).0 right, r, ground (arith, h, e, right, r))
          ]
          | inr wrong ↦ absurd (ground (arith, h, e, wrong))
        ]
      ]

      listed :
          (items : Items) (parsed : List A)
          → parse_items api parse agrees items ≡ some parsed
          → IsListing items parsed
      unfolding parse_items
      listed [] parsed h =
          let e : [] ≡ parsed = cc h in rw (← e) (record { each = refl; named = refl })
      listed ((none, value) ∷ items) parsed h = absurd (cc h)
      listed ((some key, value) ∷ items) all h =
          let (a, parsed, value_read, same, rest, eq) = parse_items-uncons key value items all h in
          rw eq (
            cons-IsListing (some key, value) items a parsed (value_read, ap some same)
              (listed items parsed rest))

      lists :
          (items : Items) (parsed : List A)
          → IsListing items parsed
          → parse_items api parse agrees items ≡ some parsed
      unfolding parse_items
      lists [] [] h = refl
      lists [] (a ∷ parsed) h = absurd (cc h.each)
      lists (i ∷ items) [] h = absurd (cc h.each)
      lists ((none, value) ∷ items) (a ∷ parsed) h = absurd (cc h.named)
      lists ((some key, value) ∷ items) (a ∷ parsed) h =
          parse_items-cons key value items a parsed (cc h.each) (cc h.named)
            (lists items parsed (record { each = cc h.each; named = cc h.named }))

  -- For a dictionary, `rpc_parse_apps` answers a list exactly if this list has one application for
  -- each item, in order: `rpc_parse_app` gives it for the item's value, and the item's key is its id.
  pub parse_apps_iff :
      (p : Plist) (items : Items) (apps : List App)
      → node p ≡ dict items
      → (parse_apps api (some p) ≡ some apps)
        ↔ IsListing (parse_app api) (λ key. key) (λ (app : App). app.app_id) items apps
  unfolding parse_apps parse_dict
  parse_apps_iff p items apps h =
      let id = λ (app : App). app.app_id in
      let exact = λ (key : String) (app : App). equal_texts_iff key app.app_id in
      rw (h, parse_dict)
        (
          listed (parse_app api) (λ key. key) id is_key_of_app exact items apps,
          lists (parse_app api) (λ key. key) id is_key_of_app exact items apps,
        )

  -- For a dictionary, `rpc_parse_pages` answers a list exactly if this list has one page for each
  -- item, in order: `rpc_parse_page` gives it for the item's value, and `strtol` reads its number
  -- from the item's key.
  pub parse_pages_iff :
      (strtol : String → ℕ) (p : Plist) (items : Items) (pages : List Page)
      → node p ≡ dict items
      → (parse_pages api strtol (some p) ≡ some pages)
        ↔ IsListing (parse_page api) strtol (λ (page : Page). page.page_id) items pages
  unfolding parse_pages parse_dict
  parse_pages_iff strtol p items pages h =
      let id = λ (page : Page). page.page_id in
      let exact : (key : String) (page : Page)
          → (is_key_of_page strtol key page ≡ true) ↔ (strtol key ≡ page.page_id) =
        λ key page. ground arith in
      rw (h, parse_dict)
        (
          listed (parse_page api) strtol id (is_key_of_page strtol) exact items pages,
          lists (parse_page api) strtol id (is_key_of_page strtol) exact items pages,
        )
