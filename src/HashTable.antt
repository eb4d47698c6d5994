-- ===== src/HashTable.antt =====
-- src/hash_table.c: a table of three buckets, each a linked list of entries.
--
-- Keys are of a type `K` with the two functions of `struct ht_struct`; values are pointers, and a
-- NULL pointer given or returned is `none`. A bucket is a list, so `ht_find` returns what stands
-- before the entry (the last of which is `prev`), the entry, and what stands behind it.
pub mod Keys
pub mod Bucket
pub mod Table
pub mod Laws
pub mod Ops
pub mod Values
use ios_webkit_debug_proxy.Prelude.{
  ℕ, zero, suc, ◌+◌, ◌-◌, ◌%◌, Bool, true, false, ◌&&◌, Option, some, none, List, [], ◌∷◌, ◌++◌,
  length, ◌==◌, if◌then◌else◌, get_or, set, map,
}

-- `on_hash`, as the `size_t` that `hc % num_buckets` makes of it, and `on_cmp` as a test.
pub record KeyFunctions (K : Type 0) : Type 0 where
  pub on_hash : K → ℕ
  pub on_cmp : K → K → Bool

pub record Entry (K V : Type 0) : Type 0 where
  pub hc : ℕ
  pub key : K
  pub value : V

pub record HashTable (K V : Type 0) : Type 0 where
  pub num_keys : ℕ
  pub buckets : List (List (Entry K V))

-- `NUM_BUCKETS`
abbrev pub num_buckets : ℕ
num_buckets = 3

unfoldable pub new : {K V : Type 0} → HashTable K V
new = record { num_keys = 0; buckets = [] ∷ [] ∷ [] ∷ [] }

pub record Found (K V : Type 0) : Type 0 where
  pub before : List (Entry K V)
  pub curr : Option (Entry K V)
  pub after : List (Entry K V)

abbrev pub index : {K : Type 0} → KeyFunctions K → K → ℕ
index fns key = fns.on_hash key % num_buckets

module _ {K V : Type 0} where
  abbrev pub revalue : Entry K V → V → Entry K V
  revalue e v = record e { value = v }

  -- The inner loop of `ht_clear`: one key less for each entry.
  unfoldable pub clear_bucket : List (Entry K V) → ℕ → ℕ
  clear_bucket [] num_keys = num_keys
  clear_bucket (e ∷ b) num_keys = clear_bucket b (num_keys - 1)

  unfoldable pub clear_buckets : List (List (Entry K V)) → HashTable K V → HashTable K V
  unfolding clear_bucket
  clear_buckets [] done = done
  clear_buckets (b ∷ bs) done =
      clear_buckets bs
        (record { num_keys = clear_bucket b done.num_keys; buckets = done.buckets ++ ([] ∷ []) })

  unfoldable pub clear : HashTable K V → HashTable K V
  unfolding clear_buckets
  clear t = clear_buckets t.buckets (record { num_keys = t.num_keys; buckets = [] })

  unfoldable pub size : HashTable K V → ℕ
  size t = t.num_keys

  -- `ht_get_all`, `ht_keys` and `ht_values`: bucket by bucket.
  unfoldable pub get_all : {A : Type 0} → (Entry K V → A) → List (List (Entry K V)) → List A
  get_all want [] = []
  get_all want (b ∷ bs) = map want b ++ get_all want bs

  unfoldable pub keys : HashTable K V → List K
  unfolding get_all
  keys t = get_all (λ (e : Entry K V). e.key) t.buckets

  unfoldable pub values : HashTable K V → List V
  unfolding get_all
  values t = get_all (λ (e : Entry K V). e.value) t.buckets

  module _ (fns : KeyFunctions K) where
    -- The loop of `ht_find` along one bucket.
    unfoldable pub find_from : ℕ → K → List (Entry K V) → Found K V
    find_from hc key [] = record { before = []; curr = none; after = [] }
    find_from hc key (e ∷ b) =
        let further = find_from hc key b in
        if e.hc == hc && fns.on_cmp e.key key
        then record { before = []; curr = some e; after = b }
        else record further { before = e ∷ further.before }

    abbrev pub bucket_of : HashTable K V → K → List (Entry K V)
    bucket_of t key = get_or t.buckets (index fns key) []

    unfoldable pub find : HashTable K V → K → Found K V
    unfolding find_from
    find t key = find_from (fns.on_hash key) key (bucket_of t key)

    unfoldable pub with_bucket : HashTable K V → K → List (Entry K V) → HashTable K V
    with_bucket t key b = record t { buckets = set t.buckets (index fns key) b }

    -- The entry that is found moves to the front of its bucket.
    unfoldable pub get : HashTable K V → K → Option (Entry K V) × HashTable K V
    unfolding find with_bucket
    get t key =
        let f = find t key in
        elim f.curr [
          | none ↦ (none, t)
          | some e ↦ (some e, with_bucket t key (e ∷ (f.before ++ f.after)))
        ]

    unfoldable pub get_key : HashTable K V → K → Option K × HashTable K V
    unfolding get
    get_key t key =
        let (found, t') = get t key in (elim found [ none ↦ none | some e ↦ some e.key ], t')

    unfoldable pub get_value : HashTable K V → K → Option V × HashTable K V
    unfolding get
    get_value t key =
        let (found, t') = get t key in (elim found [ none ↦ none | some e ↦ some e.value ], t')

    unfoldable pub unlink : HashTable K V → K → Found K V → HashTable K V
    unfolding with_bucket
    unlink t key f =
        let t' = with_bucket t key (f.before ++ f.after) in record t' { num_keys = t'.num_keys - 1 }

    unfoldable pub remove : HashTable K V → K → Option V × HashTable K V
    unfolding find unlink
    remove t key =
        let f = find t key in
        elim f.curr [ none ↦ (none, t) | some e ↦ (some e.value, unlink t key f) ]

    -- A new value replaces the old one in place, NULL removes the entry, and a new key goes to the
    -- front of its bucket.
    unfoldable pub put : HashTable K V → K → Option V → Option V × HashTable K V
    unfolding find unlink
    put t key value =
        let f = find t key in
        elim f.curr [
          | some e ↦ elim value [
            | some v ↦ (some e.value, with_bucket t key (f.before ++ (revalue e v ∷ f.after)))
            | none ↦ (some e.value, unlink t key f)
          ]
          | none ↦ elim value [
            | some v ↦
                let e : Entry K V = record { hc = fns.on_hash key; key = key; value = v } in
                let t' = with_bucket t key (e ∷ bucket_of t key) in
                (none, record t' { num_keys = t'.num_keys + 1 })
            | none ↦ (none, t)
          ]
        ]
