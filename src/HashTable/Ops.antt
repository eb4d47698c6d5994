-- ===== src/HashTable/Ops.antt =====
-- src/hash_table.c: what each operation answers and does to the map from keys to values.
use ios_webkit_debug_proxy.Prelude.{
  ℕ, zero, suc, ◌+◌, ◌-◌, ◌<◌, Option, some, none, List, [], ◌∷◌, ◌++◌, length, arith, ◌≡◌, refl,
  sym, ap, ap₂, ◌∙◌, inl, inr, Option-cases, length-append, length-map, map, get_or, replicate,
  append-nil, append_assoc,
}
use ios_webkit_debug_proxy.HashTable.{
  KeyFunctions, Entry, HashTable, revalue, index, bucket_of, with_bucket, find, find_from, get,
  get_value, put, remove, unlink, keys, values, get_all, size, clear, clear_bucket, clear_buckets,
  new,
}
use ios_webkit_debug_proxy.HashTable.Bucket.{IsLawful, IsBucket, lookup, without, with_value}
use ios_webkit_debug_proxy.HashTable.Table.{view, value_of, IsValid, total, index-lt}
use ios_webkit_debug_proxy.HashTable.Laws.{IsUpdate, unlinked, moved, replaced, added}

module _ {K V : Type 0} (fns : KeyFunctions K) where
  unchanged :
      (t : HashTable K V) (k : K) (v : Option V)
      → IsValid fns t
      → view fns t k ≡ v
      → IsUpdate fns t k v t
  unchanged t k v valid here = record { valid = valid; here = here; elsewhere = λ k' ne. refl }

  abbrev FoundAs : HashTable K V → K → Option (Entry K V) → Type 0
  FoundAs t k o = lookup fns k (bucket_of fns t k) ≡ o

  get_value-absent : (t : HashTable K V) (k : K) → FoundAs t k none → get_value fns t k ≡ (none, t)
  unfolding get_value get find lookup
  get_value-absent t k h = rw (h, get_value, get)

  get_value-found :
      (t : HashTable K V) (k : K) (e : Entry K V)
      → FoundAs t k (some e)
      → get_value fns t k
        ≡ (some e.value, with_bucket fns t k (e ∷ without fns k (bucket_of fns t k)))
  unfolding get_value get find lookup without
  get_value-found t k e h = rw (h, get_value, get)

  remove-absent : (t : HashTable K V) (k : K) → FoundAs t k none → remove fns t k ≡ (none, t)
  unfolding remove find lookup
  remove-absent t k h = rw (h, remove)

  remove-found :
      (t : HashTable K V) (k : K) (e : Entry K V)
      → FoundAs t k (some e)
      → remove fns t k ≡ (some e.value, unlink fns t k (find fns t k))
  unfolding remove find lookup
  remove-found t k e h = rw (h, remove)

  -- With lawful key functions, on a valid table: `ht_get_value` answers the value of the key (none
  -- for a key that is absent), and leaves a valid table with the same value for every key.
  pub get_value_lem :
      (lawful : IsLawful fns) (t : HashTable K V) (k : K)
      → IsValid fns t
      → ((get_value fns t k).0 ≡ view fns t k)
        × IsUpdate fns t k (view fns t k) (get_value fns t k).1
  unfolding view
  get_value_lem lawful t k valid = elim (Option-cases (lookup fns k (bucket_of fns t k))) [
    | inl absent ↦
        rw (get_value-absent t k absent)
          (sym (ap value_of absent), unchanged t k (view fns t k) valid refl)
    | inr (e, found) ↦
        rw (get_value-found t k e found, found) (refl, moved fns lawful t k valid e found)
  ]

  -- With lawful key functions, on a valid table: `ht_remove` answers the value of the key, and leaves
  -- a valid table without this key and with the same value for every other key.
  pub remove_lem :
      (lawful : IsLawful fns) (t : HashTable K V) (k : K)
      → IsValid fns t
      → ((remove fns t k).0 ≡ view fns t k) × IsUpdate fns t k none (remove fns t k).1
  unfolding view
  remove_lem lawful t k valid = elim (Option-cases (lookup fns k (bucket_of fns t k))) [
    | inl absent ↦
        rw (remove-absent t k absent)
          (sym (ap value_of absent), unchanged t k none valid (ap value_of absent))
    | inr (e, found) ↦
        rw (remove-found t k e found, found) (refl, unlinked fns lawful t k valid e found)
  ]

  put-remove : (t : HashTable K V) (k : K) → put fns t k none ≡ remove fns t k
  unfolding put remove find lookup
  put-remove t k = elim (Option-cases (lookup fns k (bucket_of fns t k))) [
    | inl absent ↦ rw (absent, put, remove)
    | inr (e, found) ↦ rw (found, put, remove)
  ]

  put-absent :
      (t : HashTable K V) (k : K) (v : V)
      → FoundAs t k none
      → put fns t k (some v) ≡ (
        none,
        record (with_bucket fns t k
            (record { hc = fns.on_hash k; key = k; value = v } ∷ bucket_of fns t k)) {
              num_keys = t.num_keys + 1;
            },
      )
  unfolding put find lookup with_bucket
  put-absent t k v h = rw (h, put)

  put-found :
      (t : HashTable K V) (k : K) (v : V) (e : Entry K V)
      → FoundAs t k (some e)
      → put fns t k (some v)
        ≡ (some e.value, with_bucket fns t k (with_value fns k (revalue e v) (bucket_of fns t k)))
  unfolding put find lookup with_value
  put-found t k v e h = rw (h, put)

  -- With lawful key functions, on a valid table: `ht_put` answers the value that the key had, and
  -- leaves a valid table in which the key has the new value (NULL removes it) and every other key the
  -- value it had.
  pub put_lem :
      (lawful : IsLawful fns) (t : HashTable K V) (k : K) (value : Option V)
      → IsValid fns t
      → ((put fns t k value).0 ≡ view fns t k) × IsUpdate fns t k value (put fns t k value).1
  unfolding view
  put_lem lawful t k none valid = rw (put-remove t k) (remove_lem lawful t k valid)
  put_lem lawful t k (some v) valid = elim (Option-cases (lookup fns k (bucket_of fns t k))) [
    | inl absent ↦
        rw (put-absent t k v absent) (sym (ap value_of absent), added fns lawful t k valid v absent)
    | inr (e, found) ↦
        rw (put-found t k v e found, found) (refl, replaced fns lawful t k valid e v found)
  ]

module _ {K V A : Type 0} where
  length-get_all :
      (want : Entry K V → A) (bs : List (List (Entry K V))) → length (get_all want bs) ≡ total bs
  unfolding get_all
  length-get_all want [] = refl
  length-get_all want (b ∷ bs) = omega (
    arith,
    length-append (map want b) (get_all want bs),
    length-map b want,
    length-get_all want bs,
  )

-- On a valid table the array of `ht_keys` and that of `ht_values`, allocated for `ht_size` elements,
-- are filled exactly.
pub length-keys :
    {K V : Type 0} (fns : KeyFunctions K) (t : HashTable K V)
    → IsValid fns t
    → (length (keys t) ≡ size t) × (length (values t) ≡ size t)
unfolding keys values size
length-keys fns t valid = (
  length-get_all (λ e. e.key) t.buckets ∙ sym valid.counted,
  length-get_all (λ e. e.value) t.buckets ∙ sym valid.counted,
)

module _ {K V : Type 0} (fns : KeyFunctions K) where
  new_each : (i : ℕ) → i < 3 → get_or (new {K = K} {V = V}).buckets i [] ≡ []
  unfolding new
  new_each zero h = refl
  new_each (suc zero) h = refl
  new_each (suc (suc zero)) h = refl
  new_each (suc (suc (suc i))) h = absurd (omega arith)

  empty-IsBucket : (i : ℕ) (b : List (Entry K V)) → b ≡ [] → IsBucket fns i b
  unfolding IsBucket
  empty-IsBucket i b h = rw h tt

  -- A new table is valid and has no key.
  pub new_lem :
      IsValid fns (new {K = K} {V = V}) × ((k : K) → view fns (new {K = K} {V = V}) k ≡ none)
  unfolding new view lookup find_from
  new_lem = (
    record {
      sized = refl;
      each = λ i h. empty-IsBucket i (get_or (new {K = K} {V = V}).buckets i []) (new_each i h);
      counted = refl;
    },
    λ k. rw (new_each (index fns k) (index-lt fns k)) refl,
  )

clear_bucket_lem : {K V : Type 0} (b : List (Entry K V)) (n : ℕ) → clear_bucket b n ≡ n - length b
unfolding clear_bucket
clear_bucket_lem [] n = omega arith
clear_bucket_lem (e ∷ b) n = omega (arith, clear_bucket_lem b (n - 1))

abbrev table : {K V : Type 0} → ℕ → List (List (Entry K V)) → HashTable K V
table n bs = record { num_keys = n; buckets = bs }

clear_buckets_lem :
    {K V : Type 0} (bs : List (List (Entry K V))) (done : HashTable K V)
    → clear_buckets bs done ≡ record {
      num_keys = done.num_keys - total bs;
      buckets = done.buckets ++ replicate (length bs) [];
    }
unfolding clear_buckets
clear_buckets_lem [] done = ap₂ table (omega arith) (sym (append-nil done.buckets))
clear_buckets_lem (b ∷ bs) done =
    let n : clear_bucket b done.num_keys - total bs ≡ done.num_keys - (length b + total bs) =
      omega (arith, clear_bucket_lem b done.num_keys) in
    clear_buckets_lem bs
      (record { num_keys = clear_bucket b done.num_keys; buckets = done.buckets ++ ([] ∷ []) })
    ∙ ap₂ table n (append_assoc done.buckets ([] ∷ []) (replicate (length bs) []))

-- On a valid table `ht_clear` gives what `ht_new` gives.
pub clear_lem :
    {K V : Type 0} (fns : KeyFunctions K) (t : HashTable K V) → IsValid fns t → clear t ≡ new
unfolding clear new
clear_lem fns t valid =
    let counted : t.num_keys - total t.buckets ≡ 0 = omega (arith, valid.counted) in
    clear_buckets_lem t.buckets (record { num_keys = t.num_keys; buckets = [] })
    ∙ rw (valid.sized, counted) refl
