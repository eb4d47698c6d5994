-- ===== src/HashTable/Bucket/Update.antt =====
-- src/hash_table.c: an entry of a bucket that gets a new value in place, as `ht_put` does it, and
-- the numbers of entries.
use ios_webkit_debug_proxy.Prelude.{
  ℕ, suc, true, some, List, [], ◌∷◌, length, ◌≡◌, refl, sym, ap, subst, ◌∙◌, ◌≢◌, inl, inr,
  Bool-cases,
}
use ios_webkit_debug_proxy.HashTable.{KeyFunctions, Entry}
use ios_webkit_debug_proxy.HashTable.Bucket.{
  IsLawful, IsBucket, lookup, is_match, without, with_value, lookup-nil, lookup-hit, lookup-miss,
  without-hit, without-miss, with_value-hit, with_value-miss, match-key, match_self, match-ne,
}

module _ {K V : Type 0} (fns : KeyFunctions K) where
  pub length-without :
      (k : K) (e : Entry K V) (b : List (Entry K V))
      → lookup fns k b ≡ some e
      → suc (length (without fns k b)) ≡ length b
  length-without k x [] h = absurd (lookup-nil fns k x h)
  length-without k x (e ∷ b) h = elim (Bool-cases (is_match fns k e)) [
    | inl y ↦ rw (without-hit fns k e b y) refl
    | inr n ↦
        rw (without-miss fns k e b n)
          (ap suc (length-without k x b (sym (lookup-miss fns k e b n) ∙ h)))
  ]

  pub length-with_value :
      (k : K) (x' x : Entry K V) (b : List (Entry K V))
      → lookup fns k b ≡ some x
      → length (with_value fns k x' b) ≡ length b
  length-with_value k x' x [] h = absurd (lookup-nil fns k x h)
  length-with_value k x' x (e ∷ b) h = elim (Bool-cases (is_match fns k e)) [
    | inl y ↦ rw (with_value-hit fns k x' e b y) refl
    | inr n ↦
        rw (with_value-miss fns k x' e b n)
          (ap suc (length-with_value k x' x b (sym (lookup-miss fns k e b n) ∙ h)))
  ]

  module _ (lawful : IsLawful fns) where
    -- What is found has the key that was looked for, and the hash of it.
    pub lookup-key :
        (i : ℕ) (k : K) (x : Entry K V) (b : List (Entry K V))
        → IsBucket fns i b
        → lookup fns k b ≡ some x
        → (x.key ≡ k) × (x.hc ≡ fns.on_hash k)
    unfolding IsBucket
    lookup-key i k x [] ok h = absurd (lookup-nil fns k x h)
    lookup-key i k x (e ∷ b) ok h =
        let (hash, there, only, rest) = ok in
        elim (Bool-cases (is_match fns k e)) [
          | inl y ↦
              let same : e ≡ x = cc (lookup-hit fns k e b y, h) in
              let key = match-key fns lawful k e y in rw (← same) (key, hash ∙ ap fns.on_hash key)
          | inr n ↦ lookup-key i k x b rest (sym (lookup-miss fns k e b n) ∙ h)
        ]

    module _ (k : K) (x : Entry K V) (key : x.key ≡ k) (hc : x.hc ≡ fns.on_hash k) where
      new_match : is_match fns k x ≡ true
      new_match = match_self fns lawful k x (hc ∙ ap fns.on_hash (sym key)) key

      pub lookup-with_value_self :
          (e : Entry K V) (b : List (Entry K V))
          → lookup fns k b ≡ some e
          → lookup fns k (with_value fns k x b) ≡ some x
      lookup-with_value_self e [] h = absurd (lookup-nil fns k e h)
      lookup-with_value_self e' (e ∷ b) h = elim (Bool-cases (is_match fns k e)) [
        | inl y ↦ rw (with_value-hit fns k x e b y) (lookup-hit fns k x b new_match)
        | inr n ↦ rw (with_value-miss fns k x e b n) (
            lookup-miss fns k e (with_value fns k x b) n
            ∙ lookup-with_value_self e' b (sym (lookup-miss fns k e b n) ∙ h))
      ]

      pub lookup-with_value_ne :
          (e : Entry K V) (k' : K) (b : List (Entry K V))
          → k ≢ k'
          → lookup fns k b ≡ some e
          → lookup fns k' (with_value fns k x b) ≡ lookup fns k' b
      lookup-with_value_ne e k' [] ne h = absurd (lookup-nil fns k e h)
      lookup-with_value_ne e' k' (e ∷ b) ne h = elim (Bool-cases (is_match fns k e)) [
        | inl y ↦ rw (with_value-hit fns k x e b y) (
            lookup-miss fns k' x b (match-ne fns lawful k k' x ne new_match)
            ∙ sym (lookup-miss fns k' e b (match-ne fns lawful k k' e ne y)))
        | inr n ↦ rw (with_value-miss fns k x e b n) (elim (Bool-cases (is_match fns k' e)) [
          | inl y' ↦ lookup-hit fns k' e (with_value fns k x b) y' ∙ sym (lookup-hit fns k' e b y')
          | inr n' ↦
              lookup-miss fns k' e (with_value fns k x b) n'
              ∙ lookup-with_value_ne e' k' b ne (sym (lookup-miss fns k e b n) ∙ h)
              ∙ sym (lookup-miss fns k' e b n')
        ])
      ]

      pub with_value-IsBucket :
          (i : ℕ) (e : Entry K V) (b : List (Entry K V))
          → lookup fns k b ≡ some e
          → IsBucket fns i b
          → IsBucket fns i (with_value fns k x b)
      unfolding IsBucket
      with_value-IsBucket i e [] h ok = absurd (lookup-nil fns k e h)
      with_value-IsBucket i e' (e ∷ b) h ok =
          let (hash, there, only, rest) = ok in
          elim (Bool-cases (is_match fns k e)) [
            | inl y ↦
                let same : e.key ≡ x.key = match-key fns lawful k e y ∙ sym key in
                subst (IsBucket fns i) (sym (with_value-hit fns k x e b y))
                  ((hc ∙ ap fns.on_hash (sym key), rw (← same) there, rw (← same) only, rest))
            | inr n ↦
                let h' = sym (lookup-miss fns k e b n) ∙ h in
                let ne : k ≢ e.key = λ t. cc (n, match_self fns lawful k e hash (sym t)) in
                subst (IsBucket fns i) (sym (with_value-miss fns k x e b n)) (
                  (
                    hash,
                    there,
                    lookup-with_value_ne e' e.key b ne h' ∙ only,
                    with_value-IsBucket i e' b h' rest,
                  ))
          ]
