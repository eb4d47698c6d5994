-- ===== src/PortConfig/Line/Laws.antt =====
-- src/port_config.c: a line adds entries behind those that are there.
use ios_webkit_debug_proxy.Prelude.{
  ℕ, zero, suc, ◌<◌, ◌≤◌, ◌≡◌, refl, sym, inl, inr, Bool-cases, Option, some, none, Option-cases,
  List, [], ◌∷◌, ◌++◌, append-nil, append_assoc, drop, length, length-drop, ◌==◌, arith,
}
use ios_webkit_debug_proxy.PortConfig.{ℤ, Entry, PortConfig, add, find}
use ios_webkit_debug_proxy.PortConfig.Find.{find-append}
use ios_webkit_debug_proxy.PortConfig.Line.{
  Groups, skip_blanks, is_blank, part_length, parse, add_part, behind_comma, add_line,
}

length-skip_blanks : (line : List ℕ) → length (skip_blanks line) ≤ length line
unfolding skip_blanks
length-skip_blanks [] = omega arith
length-skip_blanks (c ∷ line) = elim (Bool-cases (is_blank c)) [
  | inl y ↦ rw (y, skip_blanks) (omega (arith, length-skip_blanks line))
  | inr n ↦ rw (n, skip_blanks) (omega arith)
]

length-behind_comma :
    (line rest : List ℕ) → behind_comma line ≡ some rest → length rest < length line
length-behind_comma [] rest h = absurd (cc h)
length-behind_comma (c ∷ line) rest h = elim (Bool-cases (c == 44)) [
  | inl y ↦ let e : line ≡ rest = cc (rw y at h) in rw (← e) (omega arith)
  | inr n ↦ absurd (cc (rw n at h))
]

module _ (regexec : List ℕ → Option Groups) (strtol : List ℕ → ℤ) where
  -- `self'` has entries behind those of `self`.
  pub record Extends (self self' : PortConfig) : Type 0 where
    pub added : PortConfig
    pub parts : self' ≡ self ++ added

  Extends-refl : (self : PortConfig) → Extends self self
  Extends-refl self = record { added = []; parts = sym (append-nil self) }

  Extends-trans : {a b c : PortConfig} → Extends a b → Extends b c → Extends a c
  Extends-trans {a = a} x y = record {
    added = x.added ++ y.added;
    parts = rw (y.parts, x.parts) (append_assoc a x.added y.added);
  }

  add_part-Extends :
      (self : PortConfig) (curr : List ℕ) (self' : PortConfig)
      → add_part regexec strtol self curr ≡ some self'
      → Extends self self'
  unfolding add_part add
  add_part-Extends self curr self' h = elim (Bool-cases (part_length curr == 0)) [
    | inl y ↦ let e : self ≡ self' = ground (arith, h, y) in rw (← e) (Extends-refl self)
    | inr n ↦ elim (Option-cases (parse regexec strtol curr (part_length curr))) [
      | inl bad ↦ absurd (ground (arith, h, n, bad))
      | inr ((id, (low, high)), good) ↦ record {
        added = record { device_id = id; min_port = low; max_port = high } ∷ [];
        parts = sym (ground (arith, h, n, good));
      }
    ]
  ]

  add_line-Extends :
      (f : ℕ) (self : PortConfig) (line : List ℕ)
      → length line < f
      → (self' : PortConfig) × (at : Option (List ℕ)) × (add_line regexec strtol f self line
          ≡ some (self', at))
        × Extends self self'
  unfolding add_line
  add_line-Extends zero self line enough = absurd (omega (arith, enough))
  add_line-Extends (suc f) self [] enough = (self, none, refl, Extends-refl self)
  add_line-Extends (suc f) self (c ∷ line) enough =
      let curr = skip_blanks (c ∷ line) in
      let next = drop (part_length curr) curr in
      elim (Option-cases (add_part regexec strtol self curr)) [
        | inl bad ↦ (self, some curr, rw (bad, add_line) refl, Extends-refl self)
        | inr (self₁, good) ↦
            let ext = add_part-Extends self curr self₁ good in
            elim (Option-cases (behind_comma next)) [
              | inl n ↦ (self₁, none, rw (good, n, add_line) refl, ext)
              | inr (rest, y) ↦
                  let shorter : length rest < f = omega (
                    arith,
                    enough,
                    length-behind_comma next rest y,
                    length-drop (part_length curr) curr,
                    length-skip_blanks (c ∷ line),
                  ) in
                  let (self₂, at, ran, ext') = add_line-Extends f self₁ rest shorter in
                  (self₂, at, rw (good, y, add_line) ran, Extends-trans ext ext')
            ]
      ]

  -- On fuel above the length of the line, `pc_add_line` returns. The entry that was found for a
  -- device before is found for it afterwards, also when a part of the line is in error.
  pub add_line_lem :
      (f : ℕ) (self : PortConfig) (line : List ℕ)
      → length line < f
      → (self' : PortConfig) × (at : Option (List ℕ)) × (add_line regexec strtol f self line
          ≡ some (self', at))
        × ((id : Option (List ℕ)) (e : Entry) → find self id ≡ some e → find self' id ≡ some e)
  add_line_lem f self line enough =
      let (self', at, ran, ext) = add_line-Extends f self line enough in
      (self', at, ran, λ id e h. rw ext.parts (find-append id self ext.added e h))
