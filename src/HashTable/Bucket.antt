-- ===== src/HashTable/Bucket.antt =====
-- One bucket of src/hash_table.c: what `ht_find` finds in it, and what its callers make of the
-- three parts it is cut into.
pub mod Update
use ios_webkit_debug_proxy.Prelude.{
  ℕ, zero, suc, ◌+◌, ◌-◌, ◌%◌, Bool, true, false, ◌&&◌, Option, some, none, List, [], ◌∷◌, ◌++◌,
  length, arith, ◌≡◌, refl, sym, ap, subst, ◌∙◌, ◌↔◌, ◌≢◌, ◌⊎◌, inl, inr, Bool-cases, Option-cases,
  ◌==◌, if◌then◌else◌,
}
use ios_webkit_debug_proxy.HashTable.{KeyFunctions, Entry, Found, find_from, index, revalue}

-- `on_cmp` answers 0 for equal keys only.
pub record IsLawful {K : Type 0} (fns : KeyFunctions K) : Type 0 where
  pub same : (a b : K) → fns.on_cmp a b ≡ true → a ≡ b
  pub itself : (a : K) → fns.on_cmp a a ≡ true

module _ {K V : Type 0} (fns : KeyFunctions K) where
  abbrev pub is_match : K → Entry K V → Bool
  is_match k e = e.hc == fns.on_hash k && fns.on_cmp e.key k

  -- The entry of a key in a bucket.
  unfoldable pub lookup : K → List (Entry K V) → Option (Entry K V)
  unfolding find_from
  lookup k b = (find_from fns (fns.on_hash k) k b).curr

  -- Each entry of bucket `i` has the hash of its key, belongs there, and is the only one of its key.
  unfoldable pub IsBucket : ℕ → List (Entry K V) → Type 0
  IsBucket i [] = Unit
  IsBucket i (e ∷ b) =
      (e.hc ≡ fns.on_hash e.key) × (index fns e.key ≡ i) × (lookup e.key b ≡ none) × IsBucket i b

  unfoldable pub without : K → List (Entry K V) → List (Entry K V)
  unfolding find_from
  without k b = let f = find_from fns (fns.on_hash k) k b in f.before ++ f.after

  unfoldable pub with_value : K → Entry K V → List (Entry K V) → List (Entry K V)
  unfolding find_from
  with_value k x b = let f = find_from fns (fns.on_hash k) k b in f.before ++ (x ∷ f.after)

  pub lookup-nil : (k : K) (x : Entry K V) → lookup k [] ≢ some x
  unfolding lookup find_from
  lookup-nil k x h = cc h

  pub lookup-hit :
      (k : K) (e : Entry K V) (b : List (Entry K V))
      → is_match k e ≡ true
      → lookup k (e ∷ b) ≡ some e
  unfolding lookup find_from
  lookup-hit k e b h = rw (h, lookup)

  pub lookup-miss :
      (k : K) (e : Entry K V) (b : List (Entry K V))
      → is_match k e ≡ false
      → lookup k (e ∷ b) ≡ lookup k b
  unfolding lookup find_from
  lookup-miss k e b h = rw (h, lookup)

  pub without-hit :
      (k : K) (e : Entry K V) (b : List (Entry K V)) → is_match k e ≡ true → without k (e ∷ b) ≡ b
  unfolding find_from without
  without-hit k e b h = rw (h)

  pub without-miss :
      (k : K) (e : Entry K V) (b : List (Entry K V))
      → is_match k e ≡ false
      → without k (e ∷ b) ≡ e ∷ without k b
  unfolding find_from without
  without-miss k e b h = rw (h)

  pub with_value-hit :
      (k : K) (x e : Entry K V) (b : List (Entry K V))
      → is_match k e ≡ true
      → with_value k x (e ∷ b) ≡ x ∷ b
  unfolding find_from with_value
  with_value-hit k x e b h = rw (h)

  pub with_value-miss :
      (k : K) (x e : Entry K V) (b : List (Entry K V))
      → is_match k e ≡ false
      → with_value k x (e ∷ b) ≡ e ∷ with_value k x b
  unfolding find_from with_value
  with_value-miss k x e b h = rw (h)

  module _ (lawful : IsLawful fns) where
    pub match-key : (k : K) (e : Entry K V) → is_match k e ≡ true → e.key ≡ k
    match-key k e h = elim (Bool-cases (fns.on_cmp e.key k)) [
      | inl y ↦ lawful.same e.key k y
      | inr n ↦ ground (arith, h, n)
    ]

    pub match_self :
        (k : K) (e : Entry K V) → e.hc ≡ fns.on_hash e.key → e.key ≡ k → is_match k e ≡ true
    match_self k e h same =
        let y = lawful.itself k in
        let c : fns.on_cmp e.key k ≡ true = rw (same, y) in
        let m : e.hc ≡ fns.on_hash k = h ∙ ap fns.on_hash same in ground (arith, m, c)

    pub match-ne : (k k' : K) (e : Entry K V) → k ≢ k' → is_match k e ≡ true → is_match k' e ≡ false
    match-ne k k' e ne h = elim (Bool-cases (is_match k' e)) [
      | inl y ↦ absurd (ne (sym (match-key k e h) ∙ match-key k' e y))
      | inr n ↦ n
    ]

    pub lookup-without_self :
        (i : ℕ) (k : K) (b : List (Entry K V)) → IsBucket i b → lookup k (without k b) ≡ none
    unfolding IsBucket
    lookup-without_self i k [] ok = unfold lookup find_from without in refl
    lookup-without_self i k (e ∷ b) (hash, there, only, ok) = elim (Bool-cases (is_match k e)) [
      | inl y ↦ rw (without-hit k e b y, ← match-key k e y) only
      | inr n ↦
          rw (without-miss k e b n) (lookup-miss k e (without k b) n ∙ lookup-without_self i k b ok)
    ]

    pub lookup-without_ne :
        (k k' : K) (b : List (Entry K V)) → k ≢ k' → lookup k' (without k b) ≡ lookup k' b
    lookup-without_ne k k' [] ne = unfold lookup find_from without in refl
    lookup-without_ne k k' (e ∷ b) ne = elim (Bool-cases (is_match k e)) [
      | inl y ↦ rw (without-hit k e b y) (sym (lookup-miss k' e b (match-ne k k' e ne y)))
      | inr n ↦ rw (without-miss k e b n) (elim (Bool-cases (is_match k' e)) [
        | inl y' ↦ lookup-hit k' e (without k b) y' ∙ sym (lookup-hit k' e b y')
        | inr n' ↦
            lookup-miss k' e (without k b) n'
            ∙ lookup-without_ne k k' b ne
            ∙ sym (lookup-miss k' e b n')
      ])
    ]

    -- A key that is not in a bucket is not in what is left of it.
    lookup-without-none :
        (i : ℕ) (k k' : K) (b : List (Entry K V))
        → IsBucket i b
        → lookup k' b ≡ none
        → lookup k' (without k b) ≡ none
    unfolding IsBucket
    lookup-without-none i k k' [] ok h = unfold lookup find_from without in refl
    lookup-without-none i k k' (e ∷ b) (hash, there, only, ok) h =
        elim (Bool-cases (is_match k' e)) [
          | inl y' ↦ cc (lookup-hit k' e b y', h)
          | inr n' ↦
              let rest : lookup k' b ≡ none = sym (lookup-miss k' e b n') ∙ h in
              elim (Bool-cases (is_match k e)) [
                | inl y ↦ rw (without-hit k e b y) rest
                | inr n ↦
                    rw (without-miss k e b n)
                      (lookup-miss k' e (without k b) n' ∙ lookup-without-none i k k' b ok rest)
              ]
        ]

    pub without-IsBucket :
        (i : ℕ) (k : K) (b : List (Entry K V)) → IsBucket i b → IsBucket i (without k b)
    unfolding IsBucket
    without-IsBucket i k [] ok = unfold find_from without in ok
    without-IsBucket i k (e ∷ b) (hash, there, only, ok) = elim (Bool-cases (is_match k e)) [
      | inl y ↦ subst (IsBucket i) (sym (without-hit k e b y)) ok
      | inr n ↦
          subst (IsBucket i) (sym (without-miss k e b n))
            (hash, there, lookup-without-none i k e.key b ok only, without-IsBucket i k b ok)
    ]
