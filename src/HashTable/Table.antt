-- ===== src/HashTable/Table.antt =====
-- src/hash_table.c: the three buckets together, and the map from keys to values that they stand for.
use ios_webkit_debug_proxy.Prelude.{
  ℕ, zero, suc, ◌+◌, ◌≤◌, ◌<◌, Option, some, none, List, [], ◌∷◌, length, arith, ◌≡◌, refl, ap,
  subst, ◌∙◌, ◌≢◌, get_or, set, length-set, ℕ_discrete,
}
use ios_webkit_debug_proxy.HashTable.{
  KeyFunctions, Entry, HashTable, num_buckets, index, bucket_of, with_bucket,
}
use ios_webkit_debug_proxy.HashTable.Bucket.{IsBucket, lookup}

module _ {A : Type 0} where
  pub get_or-set_self :
      (xs : List A) (i : ℕ) (v d : A) → i < length xs → get_or (set xs i v) i d ≡ v
  get_or-set_self [] i v d h = absurd (omega (arith, h))
  get_or-set_self (x ∷ xs) zero v d h = refl
  get_or-set_self (x ∷ xs) (suc i) v d h = get_or-set_self xs i v d (omega arith)

  pub get_or-set_ne :
      (xs : List A) (i j : ℕ) (v d : A) → i ≢ j → get_or (set xs i v) j d ≡ get_or xs j d
  get_or-set_ne [] i j v d h = refl
  get_or-set_ne (x ∷ xs) zero zero v d h = absurd (h refl)
  get_or-set_ne (x ∷ xs) zero (suc j) v d h = refl
  get_or-set_ne (x ∷ xs) (suc i) zero v d h = refl
  get_or-set_ne (x ∷ xs) (suc i) (suc j) v d h = get_or-set_ne xs i j v d (λ e. h (ap suc e))

  -- The number of elements of the lists.
  abbrev pub total : List (List A) → ℕ
  total [] = 0
  total (b ∷ bs) = length b + total bs

  pub total-set :
      (bs : List (List A)) (i : ℕ) (b : List A)
      → i < length bs
      → total (set bs i b) + length (get_or bs i []) ≡ total bs + length b
  total-set [] i b h = absurd (omega (arith, h))
  total-set (x ∷ bs) zero b h = omega arith
  total-set (x ∷ bs) (suc i) b h = omega (arith, total-set bs i b (omega arith))

  pub length-get_or : (bs : List (List A)) (i : ℕ) → length (get_or bs i []) ≤ total bs
  length-get_or [] i = omega arith
  length-get_or (x ∷ bs) zero = omega arith
  length-get_or (x ∷ bs) (suc i) = omega (arith, length-get_or bs i)

abbrev pub value_of : {K V : Type 0} → Option (Entry K V) → Option V
value_of none = none
value_of (some e) = some e.value

pub index-lt : {K : Type 0} (fns : KeyFunctions K) (k : K) → index fns k < num_buckets
index-lt fns k = omega arith

module _ {K V : Type 0} (fns : KeyFunctions K) where
  -- The value of a key.
  unfoldable pub view : HashTable K V → K → Option V
  view t k = value_of (lookup fns k (bucket_of fns t k))

  pub record IsValid (t : HashTable K V) : Type 0 where
    pub sized : length t.buckets ≡ num_buckets
    pub each : (i : ℕ) → i < num_buckets → IsBucket fns i (get_or t.buckets i [])
    pub counted : t.num_keys ≡ total t.buckets

  pub bucket_of-IsBucket :
      (t : HashTable K V) (k : K) → IsValid t → IsBucket fns (index fns k) (bucket_of fns t k)
  bucket_of-IsBucket t k valid = valid.each (index fns k) (index-lt fns k)

  pub length-bucket_of :
      (t : HashTable K V) (k : K) → IsValid t → length (bucket_of fns t k) ≤ t.num_keys
  length-bucket_of t k valid = omega (arith, length-get_or t.buckets (index fns k), valid.counted)

  pub with_bucket-IsValid :
      (t : HashTable K V) (k : K) (b : List (Entry K V)) (n : ℕ)
      → IsValid t
      → IsBucket fns (index fns k) b
      → n + length (bucket_of fns t k) ≡ t.num_keys + length b
      → IsValid (record (with_bucket fns t k b) { num_keys = n })
  unfolding with_bucket
  with_bucket-IsValid t k b n valid ok count =
      let i = index fns k in
      let fits : i < length t.buckets = omega (arith, index-lt fns k, valid.sized) in
      record {
        sized = length-set t.buckets i b ∙ valid.sized;
        each = λ j small. elim (ℕ_discrete i j) [
          | yes same ↦
              subst (λ m. IsBucket fns m (get_or (set t.buckets i b) m [])) same
                (rw (get_or-set_self t.buckets i b [] fits) ok)
          | no ne ↦ rw (get_or-set_ne t.buckets i j b [] ne) (valid.each j small)
        ];
        counted = omega (arith, total-set t.buckets i b fits, count, valid.counted);
      }

  -- A bucket that is exchanged, for the keys that it changes and for those that it does not.
  pub lookup-with_bucket_self :
      (t : HashTable K V) (k : K) (b : List (Entry K V))
      → IsValid t
      → lookup fns k (bucket_of fns (with_bucket fns t k b) k) ≡ lookup fns k b
  unfolding with_bucket
  lookup-with_bucket_self t k b valid =
      rw (get_or-set_self t.buckets (index fns k) b [] (omega (arith, index-lt fns k, valid.sized)))

  pub lookup-with_bucket_ne :
      (t : HashTable K V) (k k' : K) (b : List (Entry K V))
      → IsValid t
      → lookup fns k' b ≡ lookup fns k' (bucket_of fns t k)
      → lookup fns k' (bucket_of fns (with_bucket fns t k b) k')
        ≡ lookup fns k' (bucket_of fns t k')
  unfolding with_bucket
  lookup-with_bucket_ne t k k' b valid h = elim (ℕ_discrete (index fns k) (index fns k')) [
    | yes same ↦ rw (← same) (
        rw
          (get_or-set_self t.buckets (index fns k) b []
            (omega (arith, index-lt fns k, valid.sized)))
          h)
    | no ne ↦ rw (get_or-set_ne t.buckets (index fns k) (index fns k') b [] ne)
  ]
