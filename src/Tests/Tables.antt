-- ===== src/Tests/Tables.antt =====
-- src/hash_table.c at concrete tables.
use ios_webkit_debug_proxy.Prelude.{ℕ, ◌≡◌, refl, some, none}
use ios_webkit_debug_proxy.HashTable.{HashTable, new, put, get_value, remove}
use ios_webkit_debug_proxy.HashTable.Keys.{int_keys, int_keys-IsLawful}
use ios_webkit_debug_proxy.HashTable.Table.{IsValid, view}
use ios_webkit_debug_proxy.HashTable.Laws.{IsUpdate}
use ios_webkit_debug_proxy.HashTable.Ops.{new_lem, put_lem, get_value_lem, remove_lem}

abbrev Numbers : Type 0
Numbers = HashTable ℕ ℕ

abbrev empty : Numbers
empty = new

-- Keys 1 and 4 share a bucket.
abbrev stored : Numbers
stored = (put int_keys (put int_keys empty 1 (some 10)).1 4 (some 40)).1

new-IsValid : IsValid int_keys empty
new-IsValid = (new_lem int_keys).0

stored-IsValid : IsValid int_keys stored
stored-IsValid =
    let first = (put_lem int_keys int_keys-IsLawful empty 1 (some 10) new-IsValid).1.valid in
    (put_lem int_keys int_keys-IsLawful (put int_keys empty 1 (some 10)).1 4 (some 40)
      first).1.valid

put_lem_example :
    ((put int_keys stored 1 (some 11)).0 ≡ view int_keys stored 1)
    × IsUpdate int_keys stored 1 (some 11) (put int_keys stored 1 (some 11)).1
put_lem_example = put_lem int_keys int_keys-IsLawful stored 1 (some 11) stored-IsValid

get_value_lem_example :
    ((get_value int_keys stored 1).0 ≡ view int_keys stored 1)
    × IsUpdate int_keys stored 1 (view int_keys stored 1) (get_value int_keys stored 1).1
get_value_lem_example = get_value_lem int_keys int_keys-IsLawful stored 1 stored-IsValid

remove_lem_example :
    ((remove int_keys stored 1).0 ≡ view int_keys stored 1)
    × IsUpdate int_keys stored 1 none (remove int_keys stored 1).1
remove_lem_example = remove_lem int_keys int_keys-IsLawful stored 1 stored-IsValid

-- The value 10 of key 1 is found behind that of key 4, and moves to the front.
get_value_moves : (get_value int_keys stored 1).0 ≡ some 10
unfolding get_value put new
get_value_moves = refl
