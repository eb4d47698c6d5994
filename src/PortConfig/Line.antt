-- ===== src/PortConfig/Line.antt =====
-- src/port_config.c: the lines of a configuration.
--
-- A line is its characters up to `stop`, where a NUL stands. `regexec` answers where the groups of
-- the expression begin and end, and `strtol` an `int`.
pub mod Laws
use ios_webkit_debug_proxy.Prelude.{
  ℕ, zero, suc, ◌-◌, Bool, true, false, not, ◌&&◌, ◌||◌, Option, some, none, List, [], ◌∷◌, take,
  drop, length, ◌==◌, if◌then◌else◌,
}
use ios_webkit_debug_proxy.PortConfig.{ℤ, PortConfig, any_device, add, to_lower}

-- The groups 2 to 5 of a match, from `rm_so` to `rm_eo`; `none` is a group that took no part.
pub record Groups : Type 0 where
  pub id : Option (ℕ × ℕ)
  pub min : ℕ × ℕ
  pub dash : Option (ℕ × ℕ)
  pub max : Option (ℕ × ℕ)

-- "null"
abbrev pub null_device : List ℕ
null_device = 110 ∷ 117 ∷ 108 ∷ 108 ∷ []

-- Whether `strncasecmp` answers 0.
unfoldable pub equal_begins : List ℕ → List ℕ → ℕ → Bool
equal_begins s t zero = true
equal_begins [] [] (suc n) = true
equal_begins [] (d ∷ t) (suc n) = false
equal_begins (c ∷ s) [] (suc n) = false
equal_begins (c ∷ s) (d ∷ t) (suc n) = to_lower c == to_lower d && equal_begins s t n

abbrev pub is_blank : ℕ → Bool
is_blank c = c == 32 || c == 9

-- The first loop over blanks.
unfoldable pub skip_blanks : List ℕ → List ℕ
skip_blanks [] = []
skip_blanks (c ∷ line) = let rest = skip_blanks line in if is_blank c then rest else c ∷ line

-- NUL, a newline, '#' or ','.
abbrev pub is_end : ℕ → Bool
is_end c = c == 0 || c == 10 || c == 35 || c == 44

-- `end - curr`
unfoldable pub part_length : List ℕ → ℕ
part_length [] = 0
part_length (c ∷ line) = let rest = part_length line in if is_end c then 0 else suc rest

-- What follows the part and a comma, if there is one.
abbrev pub behind_comma : List ℕ → Option (List ℕ)
behind_comma [] = none
behind_comma (c ∷ line) = if c == 44 then some line else none

module _ (regexec : List ℕ → Option Groups) (strtol : List ℕ → ℤ) where
  -- `pc_parse`: the first `len` characters of the line have to match, and the numbers are read from
  -- the line.
  unfoldable pub parse : List ℕ → ℕ → Option (Option (List ℕ) × (ℤ × ℤ))
  unfolding equal_begins
  parse line len = elim (regexec (take len line)) [
    | none ↦ none
    | some groups ↦
        let device_id : Option (List ℕ) = elim groups.id [
          | none ↦ some any_device
          | some (so, eo) ↦
              if equal_begins null_device (drop so line) (eo - so)
              then none
              else some (take (eo - so) (drop so line))
        ] in
        let min_port : ℤ = strtol (drop groups.min.0 line) in
        let max_port : ℤ = elim groups.dash [
          | none ↦ min_port
          | some d ↦ elim groups.max [ none ↦ min_port | some (so, eo) ↦ strtol (drop so line) ]
        ] in
        some (device_id, (min_port, max_port))
  ]

  -- One part of the line, if it is not empty; `none` is an error.
  unfoldable pub add_part : PortConfig → List ℕ → Option PortConfig
  unfolding part_length parse add
  add_part self curr =
      if part_length curr == 0 then some self else elim (parse curr (part_length curr)) [
        | none ↦ none
        | some (device_id, (min_port, max_port)) ↦ some (add self device_id min_port max_port)
      ]

  -- `pc_add_line`, with what it returns: where the error is, or NULL. `none` if the fuel runs out.
  unfoldable pub add_line : ℕ → PortConfig → List ℕ → Option (PortConfig × Option (List ℕ))
  unfolding skip_blanks add_part part_length
  add_line zero self line = none
  add_line (suc f) self [] = some (self, none)
  add_line (suc f) self (c ∷ line) =
      let curr = skip_blanks (c ∷ line) in
      elim (add_part self curr) [
        | none ↦ some (self, some curr)
        | some self' ↦ elim (behind_comma (drop (part_length curr) curr)) [
          | none ↦ some (self', none)
          | some rest ↦ add_line f self' rest
        ]
      ]
