-- ===== src/HashTable/Values.antt =====
-- src/hash_table.c: what is in the array of `ht_values`.
use ios_webkit_debug_proxy.Prelude.{
  ℕ, suc, ◌<◌, Bool, true, Bool-cases, some, List, [], ◌∷◌, length, map, any, any-append, get_or,
  arith, ◌≡◌, refl, ap, ◌∙◌, inl, inr,
}
use ios_webkit_debug_proxy.HashTable.{
  KeyFunctions, Entry, HashTable, num_buckets, index, get_all, values,
}
use ios_webkit_debug_proxy.HashTable.Bucket.{
  IsLawful, IsBucket, is_match, lookup, lookup-hit, lookup-miss, match_self, match-key,
}
use ios_webkit_debug_proxy.HashTable.Table.{view, value_of, IsValid}

module _ {K V : Type 0} (test : V → Bool) where
  abbrev passes : List (Entry K V) → Bool
  passes b = any test (map (λ (e : Entry K V). e.value) b)

  get_all-any :
      (bs : List (List (Entry K V)))
      → any test (get_all (λ (e : Entry K V). e.value) bs) ≡ true
      → (i : ℕ) × (i < length bs) × (passes (get_or bs i []) ≡ true)
  unfolding get_all
  get_all-any [] h = absurd (cc h)
  get_all-any (b ∷ bs) h =
      let rest = get_all (λ (e : Entry K V). e.value) bs in
      let split = any-append test (map (λ (e : Entry K V). e.value) b) rest in
      elim (Bool-cases (passes b)) [
        | inl y ↦ (0, omega arith, y)
        | inr n ↦
            let (i, small, found) = get_all-any bs (ground (arith, h, split, n)) in
            (suc i, omega (arith, small), found)
      ]

  module _ (fns : KeyFunctions K) (lawful : IsLawful fns) where
    bucket-any :
        (i : ℕ) (b : List (Entry K V))
        → IsBucket fns i b
        → passes b ≡ true
        → (e : Entry K V) × (lookup fns e.key b ≡ some e)
          × (index fns e.key ≡ i)
          × (test e.value ≡ true)
    unfolding IsBucket
    bucket-any i [] ok h = absurd (cc h)
    bucket-any i (e ∷ b) (hash, there, only, ok) h = elim (Bool-cases (test e.value)) [
      | inl y ↦ (e, lookup-hit fns e.key e b (match_self fns lawful e.key e hash refl), there, y)
      | inr n ↦
          let (x, found, at, y) = bucket-any i b ok (ground (arith, h, n)) in
          elim (Bool-cases (is_match fns x.key e)) [
            | inl m ↦
                absurd (cc (found, only, ap (λ k. lookup fns k b) (match-key fns lawful x.key e m)))
            | inr k ↦ (x, lookup-miss fns x.key e b k ∙ found, at, y)
          ]
    ]

    -- On a valid table, a value of `ht_values` is the value of a key.
    pub values-any :
        (t : HashTable K V)
        → IsValid fns t
        → any test (values t) ≡ true
        → (k : K) × (v : V) × (view fns t k ≡ some v) × (test v ≡ true)
    unfolding values view
    values-any t valid h =
        let (i, small, found) = get_all-any t.buckets h in
        let fits : i < num_buckets = omega (arith, small, valid.sized) in
        let (e, at, here, y) = bucket-any i (get_or t.buckets i []) (valid.each i fits) found in
        (e.key, e.value, rw here (ap value_of at), y)
