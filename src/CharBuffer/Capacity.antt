-- ===== src/CharBuffer/Capacity.antt =====
-- What `cb_ensure_capacity` promises, and the sizes at which `size_t` arithmetic breaks it.
use ios_webkit_debug_proxy.Prelude.{
  ℕ, ◌+◌, ◌-◌, ◌^◌, ◌≤◌, ◌<◌, ◌≡◌, refl, Bool, true, false, length, arith,
}
use ios_webkit_debug_proxy.Prelude.Status.{success}
use ios_webkit_debug_proxy.CharBuffer.{CharBuffer, size_mod, ensure_capacity, grown_length, new}

-- The pointers are in order and the live bytes stand between `head` and `tail`.
pub record IsValid (c : CharBuffer) : Type 0 where
  pub head_le : c.head ≤ c.tail
  pub tail_le : c.tail ≤ c.end
  pub counted : c.head + length c.live ≡ c.tail
  pub empty : c.begin ≡ false → c.end ≡ 0

pub new-IsValid : IsValid new
unfolding new
new-IsValid = record {
  head_le = omega arith;
  tail_le = omega arith;
  counted = refl;
  empty = λ _. refl;
}

-- Room for `needed` bytes, with the bytes that are held, and the pending input, as they were.
pub record HasRoom (c : CharBuffer) (needed : ℕ) (d : CharBuffer) : Type 0 where
  pub valid : IsValid d
  pub same_live : d.live ≡ c.live
  pub same_input : d.input ≡ c.input
  pub block : d.begin ≡ true
  pub room : d.tail + needed ≤ d.end

module _ (alloc : ℕ → Bool) where
  grown_length-ge : (len wanted : ℕ) → wanted < size_mod → wanted ≤ grown_length alloc len wanted
  unfolding grown_length
  grown_length-ge len wanted h = ground arith

  -- With sizes that `size_t` can add, success means room for `needed` more bytes behind the bytes
  -- that were held, which are kept, as is the pending input.
  pub ensure_capacity-HasRoom :
      (c : CharBuffer) (needed : ℕ)
      → IsValid c
      → length c.live + needed < size_mod
      → (ensure_capacity alloc c needed).0 ≡ success
      → HasRoom c needed (ensure_capacity alloc c needed).1
  unfolding ensure_capacity
  ensure_capacity-HasRoom c needed valid small ok =
      ground (arith, grown_length-ge c.end (c.tail - c.head + needed))

  -- Whatever the status, no byte that is held is lost and the buffer stays valid.
  pub ensure_capacity-keeps :
      (c : CharBuffer) (needed : ℕ)
      → IsValid c
      → length c.live + needed < size_mod
      → let d = (ensure_capacity alloc c needed).1 in
        IsValid d × (d.live ≡ c.live) × (d.input ≡ c.input)
  unfolding ensure_capacity
  ensure_capacity-keeps c needed valid small =
      ground (arith, grown_length-ge c.end (c.tail - c.head + needed))

  -- It fails only when the allocator does.
  pub ensure_capacity-total :
      (c : CharBuffer) (needed : ℕ)
      → ((n : ℕ) → alloc n ≡ true)
      → (ensure_capacity alloc c needed).0 ≡ success
  unfolding ensure_capacity
  ensure_capacity-total c needed all = grind (arith, all)

  -- Where the sum of the held and the needed bytes wraps, success leaves less room than asked for.
  pub ensure_capacity-overflow :
      (c : CharBuffer) (needed : ℕ)
      → IsValid c
      → c.begin ≡ true
      → c.head < c.tail
      → c.end < 2 ^ 62
      → needed < size_mod
      → size_mod ≤ length c.live + needed
      → ((n : ℕ) → n < 2 ^ 63 → alloc n ≡ true)
      → let (status, d) = ensure_capacity alloc c needed in
        (status ≡ success) × (d.end < d.tail + needed)
  unfolding ensure_capacity
  ensure_capacity-overflow c needed valid block used small wide wraps all =
      ground (arith, all (grown_length alloc c.end (c.tail - c.head + needed)))
