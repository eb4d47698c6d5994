-- ===== src/CharBuffer/Stream.antt =====
-- `cb_begin_input` and `cb_end_input` around a reader: the reader sees the bytes that were kept
-- from earlier input, then the new ones, and what it leaves unread is kept.
use ios_webkit_debug_proxy.Prelude.{
  ℕ, ◌+◌, ◌≤◌, ◌<◌, ◌≡◌, ◌⊎◌, inl, inr, refl, Bool, true, false, Option, some, List, [], ◌++◌,
  length, length-append, arith, Bool-cases, not, ◌||◌, ◌==◌, ◌∷◌, ◌-◌, ◌∙◌, ltb, ap,
}
use ios_webkit_debug_proxy.Prelude.Status.{Status, success, error, Status-cases}
use ios_webkit_debug_proxy.CharBuffer.{
  CharBuffer, null, caller, own, size_mod, ensure_capacity, append, append_ensured, begin_input,
  end_input, with_unread,
}
use ios_webkit_debug_proxy.CharBuffer.Capacity.{
  IsValid, ensure_capacity-HasRoom, ensure_capacity-keeps, ensure_capacity-total,
}

-- Between `cb_begin_input` and `cb_end_input`, with `view` to read.
pub record IsReading (view : List ℕ) (c : CharBuffer) : Type 0 where
  pub valid : IsValid c
  pub view_at :
      ((c.input ≡ caller view) × (c.live ≡ []))
      ⊎ ((c.input ≡ own view c.tail) × (c.live ≡ view) × (c.begin ≡ true))

pub live-empty : (xs : List ℕ) → length xs ≡ 0 → xs ≡ []
live-empty [] h = refl
live-empty (x ∷ xs) h = absurd (omega arith)

-- `d` is `c` with `bytes` written at `tail`, if `s` is success.
record IsAppended (c : CharBuffer) (bytes : List ℕ) (s : Status) (d : CharBuffer) : Type 0 where
  valid : IsValid d
  same_input : d.input ≡ c.input
  written : s ≡ success → (d.live ≡ c.live ++ bytes) × (d.begin ≡ true)
  kept : s ≡ error → d.live ≡ c.live

module _ (alloc : ℕ → Bool) where
  -- `memcpy` behind `cb_ensure_capacity` stays inside the block.
  append_ensured_lem :
      (c : CharBuffer) (bytes : List ℕ)
      → IsValid c
      → length c.live + length bytes < size_mod
      → (s : Status) × (d : CharBuffer) × (append_ensured alloc c bytes ≡ some (s, d))
        × IsAppended c bytes s d
        × (((n : ℕ) → alloc n ≡ true) → s ≡ success)
  unfolding append_ensured append
  append_ensured_lem c bytes valid small =
      let room = ensure_capacity-HasRoom alloc c (length bytes) valid small in
      let keeps = ensure_capacity-keeps alloc c (length bytes) valid small in
      let total = ensure_capacity-total alloc c (length bytes) in
      let d = (ensure_capacity alloc c (length bytes)).1 in
      elim (Status-cases (ensure_capacity alloc c (length bytes)).0) [
        | inl ok ↦
            let r = room ok in
            (
              success,
              record d { tail = d.tail + length bytes; live = d.live ++ bytes },
              ground arith,
              ground (arith, length-append d.live bytes),
              (λ all. refl),
            )
        | inr bad ↦ (error, d, ground arith, ground arith, (λ all. ground (arith, total all)))
      ]

  -- `cb_begin_input` stays inside its block whatever the allocator does. When it succeeds, the
  -- bytes to read are the ones that were kept and then the new ones.
  pub begin_input-IsReading :
      (c : CharBuffer) (buf : List ℕ)
      → IsValid c
      → length c.live + length buf < size_mod
      → (s : Status) × (d : CharBuffer) × (begin_input alloc c (some buf) ≡ some (s, d))
        × (s ≡ success → IsReading (c.live ++ buf) d)
        × (s ≡ error → IsValid d × (d.live ≡ c.live))
        × (((n : ℕ) → alloc n ≡ true) → s ≡ success)
  unfolding begin_input
  begin_input-IsReading c buf valid small =
      let (s, d, run, a, total) = append_ensured_lem c buf valid small in
      elim (Bool-cases (not c.begin || c.tail == c.head)) [
        | inl share ↦
            let e : c.live ≡ [] = live-empty c.live (ground arith) in
            (
              success,
              record c { input = caller buf },
              rw share,
              (λ _. record { valid = ground arith; view_at = inl (rw e, e) }),
              (λ h. cc),
              (λ _. refl),
            )
        | inr copy ↦ elim (Status-cases s) [
          | inl ok ↦ (
            success,
            record d { input = own d.live d.tail },
            rw (copy, run, ok),
            (λ _.
                let (w, b) = a.written ok in
                record { valid = ground arith; view_at = inr (rw w, w, b) }),
            (λ h. cc),
            (λ _. refl),
          )
          | inr bad ↦
              (error, d, rw (copy, run, bad), (λ h. cc), (λ _. ground arith), ground (arith, total))
        ]
      ]

  Ended : List ℕ → Option (Status × CharBuffer) → Type 0
  Ended u r =
      (s : Status) × (e : CharBuffer) × (r ≡ some (s, e))
      × (s ≡ success → IsValid e × (e.live ≡ u))
      × (((n : ℕ) → alloc n ≡ true) → s ≡ success)

  share_or : (b : Bool) → (not b || true) ≡ true
  share_or true = refl
  share_or false = refl

  end_shared-saved :
      (u : List ℕ) (c : CharBuffer)
      → IsValid c
      → c.live ≡ []
      → length u < size_mod
      → Ended u (end_input alloc (record c { input = caller u }))
  unfolding end_input Ended
  end_shared-saved u c v bare small =
      let cv : IsValid (record c { input = caller u }) = ground arith in
      let (s, e, run, a, total) =
        append_ensured_lem (record c { input = caller u }) u cv (rw bare (omega arith)) in
      elim (Bool-cases (ltb 0 (length u))) [
        | inr none_left ↦
            let nil : u ≡ [] = live-empty u (ground arith) in
            (
              success,
              record c { input = null },
              rw (share_or c.begin, none_left),
              (λ _. (ground arith, rw (bare, nil))),
              (λ _. refl),
            )
        | inl some_left ↦ elim (Status-cases s) [
          | inl ok ↦ (
            success,
            record e { input = null },
            rw (share_or c.begin, some_left, run, ok),
            (λ _. (ground arith, (a.written ok).0 ∙ rw bare)),
            (λ _. refl),
          )
          | inr bad ↦ (
            error,
            e,
            rw (share_or c.begin, some_left, run, bad),
            (λ h. cc),
            ground (arith, total),
          )
        ]
      ]

  end_own-kept :
      (view u : List ℕ) (c : CharBuffer)
      → IsValid c
      → c.live ≡ view
      → c.begin ≡ true
      → length u ≤ length view
      → Ended u (end_input alloc (record c { input = own u c.tail }))
  unfolding end_input Ended
  end_own-kept view u c v holds block shorter = (
    success,
    record c { head = c.tail - length u; live = u; input = null },
    ground arith,
    (λ _. (ground (arith, ap length holds), refl)),
    (λ _. refl),
  )

  -- `cb_end_input` after a read that left `u` of `view`: it stays inside its block, it fails only
  -- if the allocator does, and when it succeeds the buffer holds exactly `u`.
  pub end_input-keeps :
      (view u : List ℕ) (d : CharBuffer)
      → IsReading view d
      → length u ≤ length view
      → length view < size_mod
      → (s : Status) × (e : CharBuffer) × (end_input alloc (with_unread d u) ≡ some (s, e))
        × (s ≡ success → IsValid e × (e.live ≡ u))
        × (((n : ℕ) → alloc n ≡ true) → s ≡ success)
  unfolding Ended
  end_input-keeps view u d r shorter small = elim r.view_at [
    | inl (at, bare) ↦ rw at (end_shared-saved u d r.valid bare (omega arith))
    | inr (at, holds, block) ↦ rw at (end_own-kept view u d r.valid holds block shorter)
  ]
