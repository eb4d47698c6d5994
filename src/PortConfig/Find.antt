-- ===== src/PortConfig/Find.antt =====
-- src/port_config.c: which entry `pc_find` answers, and the port that `pc_select_port` leaves.
use ios_webkit_debug_proxy.Prelude.{
  ℕ, ◌≡◌, ◌↔◌, refl, ap, inl, inr, true, false, Bool-cases, Option, some, Option-cases, List, [],
  ◌∷◌, ◌++◌, arith,
}
use ios_webkit_debug_proxy.PortConfig.{
  ℤ, pos, less, Entry, PortConfig, is_for, find, in_range, select_port,
}

-- No entry is for the device.
pub data IsForNone (device_id : Option (List ℕ)) : PortConfig → Type 0 where
  nil : IsForNone device_id []
  cons :
      {e : Entry} {self : PortConfig}
      → is_for device_id e ≡ false
      → IsForNone device_id self
      → IsForNone device_id (e ∷ self)

module _ (device_id : Option (List ℕ)) where
  -- The entry stands in the list, is for the device, and no entry before it is.
  pub record IsFirst (self : PortConfig) (e : Entry) : Type 0 where
    pub before : PortConfig
    pub after : PortConfig
    pub parts : self ≡ before ++ (e ∷ after)
    pub matches : is_for device_id e ≡ true
    pub others : IsForNone device_id before

  find-behind :
      {before : PortConfig} (more : PortConfig)
      → IsForNone device_id before
      → find (before ++ more) device_id ≡ find more device_id
  unfolding find
  find-behind more nil = refl
  find-behind more (cons ne h) = rw (ne, find) (find-behind more h)

  find-hit :
      (e : Entry) (self : PortConfig)
      → is_for device_id e ≡ true
      → find (e ∷ self) device_id ≡ some e
  unfolding find
  find-hit e self h = rw (h, find) refl

  find-IsFirst : (self : PortConfig) (e : Entry) → find self device_id ≡ some e → IsFirst self e
  unfolding find
  find-IsFirst [] e h = absurd (cc h)
  find-IsFirst (x ∷ self) e h = elim (Bool-cases (is_for device_id x)) [
    | inl y ↦
        let same : x ≡ e = ground (arith, h, y) in
        record {
          before = [];
          after = self;
          parts = ap (λ z. z ∷ self) same;
          matches = rw (← same) y;
          others = nil;
        }
    | inr n ↦
        let deep = find-IsFirst self e (ground (arith, h, n)) in
        record {
          before = x ∷ deep.before;
          after = deep.after;
          parts = ap (λ z. x ∷ z) deep.parts;
          matches = deep.matches;
          others = cons n deep.others;
        }
  ]

  -- `pc_find` answers an entry exactly if it is the first of the list that is for the device.
  pub find_iff : (self : PortConfig) (e : Entry) → (find self device_id ≡ some e) ↔ IsFirst self e
  find_iff self e = (
    find-IsFirst self e,
    λ h. rw (h.parts, find-behind (e ∷ h.after) h.others) (find-hit e h.after h.matches),
  )

  -- What is added behind an entry does not hide it.
  pub find-append :
      (self more : PortConfig) (e : Entry)
      → find self device_id ≡ some e
      → find (self ++ more) device_id ≡ some e
  unfolding find
  find-append [] more e h = absurd (cc h)
  find-append (x ∷ self) more e h = elim (Bool-cases (is_for device_id x)) [
    | inl y ↦ ground (arith, h, y)
    | inr n ↦ rw (n, find) (find-append self more e (ground (arith, h, n)))
  ]

  in_range_lem :
      (e : Entry) (port : ℤ)
      → less (in_range port e) (pos 0) ≡ false
      → (in_range port e ≡ port)
        × (less (in_range port e) e.min_port ≡ false)
        × (less e.max_port (in_range port e) ≡ false)
  unfolding in_range
  in_range_lem e port h = elim (Bool-cases (less port (pos 0))) [
    | inl y ↦ absurd (cc (rw y at h, y))
    | inr n ↦ elim (Bool-cases (less port e.min_port)) [
      | inl low ↦ absurd (cc (rw (n, low) at h))
      | inr m ↦ elim (Bool-cases (less e.max_port port)) [
        | inl high ↦ absurd (cc (rw (n, m, high) at h))
        | inr k ↦ rw (n, m, k) (refl, m, k)
      ]
    ]
  ]

  -- If the port that `pc_select_port` leaves is not negative, it is the one that was asked for, and
  -- lies between the two bounds that it writes.
  pub select_port_bounds :
      (self : PortConfig) (port : ℤ)
      → let r = (select_port self device_id port).1 in
        less r.port (pos 0) ≡ false
        → (r.port ≡ port) × (less r.port r.min_port ≡ false) × (less r.max_port r.port ≡ false)
  unfolding select_port
  select_port_bounds self port h = elim (Option-cases (find self device_id)) [
    | inl n ↦ absurd (cc (rw (n, select_port) at h))
    | inr (e, y) ↦ rw (y, select_port) (in_range_lem e port (rw (y, select_port) at h))
  ]
