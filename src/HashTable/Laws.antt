-- ===== src/HashTable/Laws.antt =====
-- src/hash_table.c: the operations as operations on a map from keys to values.
use ios_webkit_debug_proxy.Prelude.{
  ℕ, ◌+◌, ◌-◌, Option, some, none, List, ◌∷◌, length, arith, ◌≡◌, refl, sym, ap, ◌∙◌, ◌≢◌,
}
use ios_webkit_debug_proxy.HashTable.{
  KeyFunctions, Entry, HashTable, index, revalue, bucket_of, with_bucket, find, unlink,
}
use ios_webkit_debug_proxy.HashTable.Bucket.{
  IsLawful, IsBucket, lookup, without, with_value, lookup-hit, lookup-miss, match_self, match-ne,
  lookup-without_self, lookup-without_ne, without-IsBucket,
}
use ios_webkit_debug_proxy.HashTable.Bucket.Update.{
  length-without, length-with_value, lookup-key, lookup-with_value_self, lookup-with_value_ne,
  with_value-IsBucket,
}
use ios_webkit_debug_proxy.HashTable.Table.{
  view, value_of, IsValid, bucket_of-IsBucket, length-bucket_of, with_bucket-IsValid,
  lookup-with_bucket_self, lookup-with_bucket_ne,
}

module _ {K V : Type 0} (fns : KeyFunctions K) where
  -- `t'` is `t` with the value of one key exchanged, none for a key that is removed.
  pub record IsUpdate (t : HashTable K V) (k : K) (v : Option V) (t' : HashTable K V) : Type 0 where
    pub valid : IsValid fns t'
    pub here : view fns t' k ≡ v
    pub elsewhere : (k' : K) → k ≢ k' → view fns t' k' ≡ view fns t k'

  front :
      (i : ℕ) (e : Entry K V) (b : List (Entry K V))
      → e.hc ≡ fns.on_hash e.key
      → index fns e.key ≡ i
      → lookup fns e.key b ≡ none
      → IsBucket fns i b
      → IsBucket fns i (e ∷ b)
  unfolding IsBucket
  front i e b hash there only ok = (hash, there, only, ok)

  module _ (lawful : IsLawful fns) (t : HashTable K V) (k : K) (valid : IsValid fns t) where
    updated :
        (b' : List (Entry K V)) (n : ℕ) (v : Option V)
        → IsBucket fns (index fns k) b'
        → n + length (bucket_of fns t k) ≡ t.num_keys + length b'
        → value_of (lookup fns k b') ≡ v
        → ((k' : K) → k ≢ k' → lookup fns k' b' ≡ lookup fns k' (bucket_of fns t k))
        → IsUpdate t k v (record (with_bucket fns t k b') { num_keys = n })
    unfolding view with_bucket
    updated b' n v ok count here elsewhere = record {
      valid = with_bucket-IsValid fns t k b' n valid ok count;
      here = ap value_of (lookup-with_bucket_self fns t k b' valid) ∙ here;
      elsewhere =
          λ k' ne. ap value_of (lookup-with_bucket_ne fns t k k' b' valid (elsewhere k' ne));
    }

    -- The entry of `k` dropped.
    pub unlinked :
        (e : Entry K V)
        → lookup fns k (bucket_of fns t k) ≡ some e
        → IsUpdate t k none (unlink fns t k (find fns t k))
    unfolding find unlink with_bucket without
    unlinked e found =
        let b : List (Entry K V) = bucket_of fns t k in
        let ok = bucket_of-IsBucket fns t k valid in
        updated (without fns k b) (t.num_keys - 1) none
          (without-IsBucket fns lawful (index fns k) k b ok)
          (omega (arith, length-without fns k e b found, length-bucket_of fns t k valid))
          (ap value_of (lookup-without_self fns lawful (index fns k) k b ok))
          (λ k' ne. lookup-without_ne fns lawful k k' b ne)

    -- The entry of `k` moved to the front.
    pub moved :
        (e : Entry K V)
        → lookup fns k (bucket_of fns t k) ≡ some e
        → IsUpdate t k (some e.value) (with_bucket fns t k (e ∷ without fns k (bucket_of fns t k)))
    unfolding with_bucket without
    moved e found =
        let b : List (Entry K V) = bucket_of fns t k in
        let ok = bucket_of-IsBucket fns t k valid in
        let (key, hc) = lookup-key fns lawful (index fns k) k e b ok found in
        let hash = hc ∙ ap fns.on_hash (sym key) in
        let matched = match_self fns lawful k e hash key in
        updated (e ∷ without fns k b) t.num_keys (some e.value)
          (front (index fns k) e (without fns k b) hash (ap (index fns) key)
            (rw key (lookup-without_self fns lawful (index fns k) k b ok))
            (without-IsBucket fns lawful (index fns k) k b ok))
          (omega (arith, length-without fns k e b found))
          (ap value_of (lookup-hit fns k e (without fns k b) matched))
          (λ k' ne.
            lookup-miss fns k' e (without fns k b) (match-ne fns lawful k k' e ne matched)
            ∙ lookup-without_ne fns lawful k k' b ne)

    -- The value of `k` replaced.
    pub replaced :
        (e : Entry K V) (v : V)
        → lookup fns k (bucket_of fns t k) ≡ some e
        → IsUpdate t k
            (some v)
            (with_bucket fns t k (with_value fns k (revalue e v) (bucket_of fns t k)))
    unfolding with_bucket with_value
    replaced e v found =
        let b : List (Entry K V) = bucket_of fns t k in
        let ok = bucket_of-IsBucket fns t k valid in
        let (key, hc) = lookup-key fns lawful (index fns k) k e b ok found in
        updated (with_value fns k (revalue e v) b) t.num_keys (some v)
          (with_value-IsBucket fns lawful k (revalue e v) key hc (index fns k) e b found ok)
          (omega (arith, length-with_value fns k (revalue e v) e b found))
          (ap value_of (lookup-with_value_self fns lawful k (revalue e v) key hc e b found))
          (λ k' ne. lookup-with_value_ne fns lawful k (revalue e v) key hc e k' b ne found)

    pub added :
        (v : V)
        → lookup fns k (bucket_of fns t k) ≡ none
        → IsUpdate t k
            (some v)
            (record (with_bucket fns t k
              (record { hc = fns.on_hash k; key = k; value = v } ∷ bucket_of fns t k)) {
                num_keys = t.num_keys + 1;
              })
    added v absent =
        let b : List (Entry K V) = bucket_of fns t k in
        let e : Entry K V = record { hc = fns.on_hash k; key = k; value = v } in
        let matched = match_self fns lawful k e refl refl in
        updated (e ∷ b) (t.num_keys + 1) (some v)
          (front (index fns k) e b refl refl absent (bucket_of-IsBucket fns t k valid))
          (omega arith) (ap value_of (lookup-hit fns k e b matched))
          (λ k' ne. lookup-miss fns k' e b (match-ne fns lawful k k' e ne matched))
