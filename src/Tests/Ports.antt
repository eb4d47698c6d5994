-- ===== src/Tests/Ports.antt =====
-- src/port_config.c at concrete lines.
use ios_webkit_debug_proxy.Prelude.{ℕ, ◌≡◌, Option, some, none, List, [], ◌∷◌, arith}
use ios_webkit_debug_proxy.PortConfig.{ℤ, pos, Entry, PortConfig, any_device, find}
use ios_webkit_debug_proxy.PortConfig.Line.{Groups, add_line}
use ios_webkit_debug_proxy.PortConfig.Line.Laws.{add_line_lem}

abbrev listing_entry : Entry
listing_entry = record { device_id = none; min_port = pos 9221; max_port = pos 9221 }

abbrev any_entry : Entry
any_entry = record { device_id = some any_device; min_port = pos 9222; max_port = pos 9322 }

abbrev default_config : PortConfig
default_config = listing_entry ∷ any_entry ∷ []

-- Every part is one character for any device, with its code as the port.
abbrev one_group : List ℕ → Option Groups
one_group part = some (record { id = none; min = (0, 1); dash = none; max = none })

abbrev code_of : List ℕ → ℤ
code_of [] = pos 0
code_of (c ∷ line) = pos c

add_line_lem_example :
    (self' : PortConfig) × (at : Option (List ℕ)) × (add_line one_group code_of 4 default_config
        (55 ∷ 44 ∷ 56 ∷ [])
      ≡ some (self', at))
    × ((id : Option (List ℕ)) (e : Entry)
        → find default_config id ≡ some e
        → find self' id ≡ some e)
add_line_lem_example =
    add_line_lem one_group code_of 4 default_config (55 ∷ 44 ∷ 56 ∷ []) (omega arith)
