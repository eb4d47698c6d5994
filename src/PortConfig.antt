-- ===== src/PortConfig.antt =====
-- src/port_config.c: which ports a device may be served on.
--
-- The list of entries stands for `head`, `tail` and the links. A string is the bytes before its NUL,
-- NULL is `none`, and an `int` is an integer. The regular expressions of the C library and `strtol`
-- are parameters; every allocation succeeds.
pub mod Line
pub mod Find
use ios_webkit_debug_proxy.Prelude.{
  ℕ, zero, suc, ◌+◌, Bool, true, false, not, ◌&&◌, ◌||◌, Option, some, none, List, [], ◌∷◌, ◌++◌,
  ltb, leb, ◌==◌, if◌then◌else◌,
}
use ios_webkit_debug_proxy.Prelude.Status.{Status, success, error}
use ios_webkit_debug_proxy.HashTable.Keys.{equal_strings}

-- An `int`.
pub data ℤ : Type 0 where
  pos : ℕ → ℤ
  negsuc : ℕ → ℤ

abbrev pub less : ℤ → ℤ → Bool
less (pos a) (pos b) = ltb a b
less (pos a) (negsuc b) = false
less (negsuc a) (pos b) = true
less (negsuc a) (negsuc b) = ltb b a

-- The value -1, of a port that is not there.
abbrev pub no_port : ℤ
no_port = negsuc 0

-- `struct pc_entry_struct`, without its link
pub record Entry : Type 0 where
  pub device_id : Option (List ℕ)
  pub min_port : ℤ
  pub max_port : ℤ

-- `struct pc_struct`, without what `pc_parse` keeps for its next call
abbrev pub PortConfig : Type 0
PortConfig = List Entry

abbrev pub new : PortConfig
new = []

abbrev pub clear : PortConfig → PortConfig
clear self = []

unfoldable pub add : PortConfig → Option (List ℕ) → ℤ → ℤ → PortConfig
add self device_id min_port max_port =
    self ++ (record { device_id = device_id; min_port = min_port; max_port = max_port } ∷ [])

-- `tolower`, as `strcasecmp` compares characters in the C locale.
abbrev pub to_lower : ℕ → ℕ
to_lower c = if leb 65 c && leb c 90 then c + 32 else c

-- Whether `strcasecmp` answers 0.
unfoldable pub equal_ignoring_case : List ℕ → List ℕ → Bool
equal_ignoring_case [] [] = true
equal_ignoring_case [] (d ∷ t) = false
equal_ignoring_case (c ∷ s) [] = false
equal_ignoring_case (c ∷ s) (d ∷ t) = to_lower c == to_lower d && equal_ignoring_case s t

-- "*"
abbrev pub any_device : List ℕ
any_device = 42 ∷ []

-- The test of `pc_find`.
unfoldable pub is_for : Option (List ℕ) → Entry → Bool
unfolding equal_ignoring_case equal_strings
is_for device_id e = elim e.device_id [
  | none ↦ elim device_id [ none ↦ true | some id ↦ false ]
  | some s ↦
      equal_strings s any_device
      || (elim device_id [ none ↦ false | some id ↦ equal_ignoring_case s id ])
]

unfoldable pub find : PortConfig → Option (List ℕ) → Option Entry
unfolding is_for
find [] device_id = none
find (e ∷ self) device_id =
    let rest = find self device_id in if is_for device_id e then some e else rest

-- What `pc_select_port` writes.
pub record Ports : Type 0 where
  pub port : ℤ
  pub min_port : ℤ
  pub max_port : ℤ

-- The port that is asked for, if it is not out of the range.
unfoldable pub in_range : ℤ → Entry → ℤ
in_range port e =
    if not (less port (pos 0)) && (less port e.min_port || less e.max_port port)
    then no_port
    else port

unfoldable pub select_port : PortConfig → Option (List ℕ) → ℤ → Status × Ports
unfolding find in_range
select_port self device_id port = elim (find self device_id) [
  | none ↦ (error, record { port = no_port; min_port = no_port; max_port = no_port })
  | some e ↦
      (success, record { port = in_range port e; min_port = e.min_port; max_port = e.max_port })
]
