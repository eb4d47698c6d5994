-- ===== src/HashTable/Keys.antt =====
-- src/hash_table.c: the two kinds of keys, strings (`on_strhash` and `on_strcmp`) and integers.
--
-- A string is the bytes before its NUL; a NULL key is `none`. The `int` hash is kept as its 32 bits,
-- and what does not fit is cut off; `char` is signed. `hc % num_buckets` is taken in `size_t`, so a
-- negative hash has its sign extended.
use ios_webkit_debug_proxy.Prelude.{
  ℕ, ◌+◌, ◌*◌, ◌-◌, ◌%◌, ◌^◌, bit_xor, Bool, true, false, ◌&&◌, Option, some, none, List, [], ◌∷◌,
  ◌≡◌, refl, ap, ap₂, arith, ltb, ◌==◌, if◌then◌else◌, inl, inr, Bool-cases,
}
use ios_webkit_debug_proxy.HashTable.{KeyFunctions}
use ios_webkit_debug_proxy.HashTable.Bucket.{IsLawful}

-- A `char` as the 32 bits of the `int ch`.
abbrev int_of_char : ℕ → ℕ
int_of_char ch = if ltb ch 128 then ch else ch + (2 ^ 32 - 256)

hash_from : ℕ → List ℕ → ℕ
hash_from hc [] = hc
hash_from hc (ch ∷ s) = hash_from (bit_xor ((hc * 32 + hc) % 2 ^ 32) (int_of_char ch)) s

-- An `int` as a `size_t`.
abbrev size_of_hash : ℕ → ℕ
size_of_hash hc = if ltb hc (2 ^ 31) then hc else hc + (2 ^ 64 - 2 ^ 32)

unfoldable pub on_strhash : Option (List ℕ) → ℕ
unfolding hash_from
on_strhash none = 0
on_strhash (some s) = size_of_hash (hash_from 0 s)

-- Whether `strcmp` answers 0.
unfoldable pub equal_strings : List ℕ → List ℕ → Bool
equal_strings [] [] = true
equal_strings [] (y ∷ ys) = false
equal_strings (x ∷ xs) [] = false
equal_strings (x ∷ xs) (y ∷ ys) = x == y && equal_strings xs ys

-- Whether `on_strcmp` answers 0.
unfoldable pub on_strcmp : Option (List ℕ) → Option (List ℕ) → Bool
unfolding equal_strings
on_strcmp none none = true
on_strcmp none (some t) = false
on_strcmp (some s) none = false
on_strcmp (some s) (some t) = equal_strings s t

-- The functions that `ht_new` sets for `HT_STRING_KEYS`, and what `ht_find` does without them.
abbrev pub string_keys : KeyFunctions (Option (List ℕ))
string_keys = record { on_hash = on_strhash; on_cmp = on_strcmp }

abbrev pub int_keys : KeyFunctions ℕ
int_keys = record { on_hash = λ k. k; on_cmp = λ a b. a == b }

equal_strings-same : (s t : List ℕ) → equal_strings s t ≡ true → s ≡ t
unfolding equal_strings
equal_strings-same [] [] h = refl
equal_strings-same [] (y ∷ t) h = cc h
equal_strings-same (x ∷ s) [] h = cc h
equal_strings-same (x ∷ s) (y ∷ t) h = elim (Bool-cases (equal_strings s t)) [
  | inl e ↦ ap₂ (λ z zs. z ∷ zs) (ground (arith, h, e)) (equal_strings-same s t e)
  | inr n ↦ ground (arith, h, n)
]

equal_strings-itself : (s : List ℕ) → equal_strings s s ≡ true
unfolding equal_strings
equal_strings-itself [] = refl
equal_strings-itself (x ∷ s) = ground (arith, equal_strings-itself s)

on_strcmp-same : (a b : Option (List ℕ)) → on_strcmp a b ≡ true → a ≡ b
unfolding on_strcmp
on_strcmp-same none none h = refl
on_strcmp-same none (some t) h = cc h
on_strcmp-same (some s) none h = cc h
on_strcmp-same (some s) (some t) h = ap some (equal_strings-same s t h)

on_strcmp-itself : (a : Option (List ℕ)) → on_strcmp a a ≡ true
unfolding on_strcmp
on_strcmp-itself none = refl
on_strcmp-itself (some s) = equal_strings-itself s

-- `on_strcmp` answers 0 for strings of the same bytes and for two NULL pointers only.
pub string_keys-IsLawful : IsLawful string_keys
string_keys-IsLawful = record { same = on_strcmp-same; itself = on_strcmp-itself }

pub int_keys-IsLawful : IsLawful int_keys
int_keys-IsLawful = record { same = λ a b h. ground (arith, h); itself = λ a. ground arith }
