-- ===== src/Tests/Buffers.antt =====
-- src/char_buffer.c at concrete buffers.
use ios_webkit_debug_proxy.Prelude.{
  ℕ, ◌+◌, ◌-◌, ◌^◌, ◌<◌, ◌≡◌, refl, inl, Bool, true, some, [], ◌∷◌, ◌++◌, arith,
}
use ios_webkit_debug_proxy.Prelude.Status.{Status, success, error}
use ios_webkit_debug_proxy.CharBuffer.{CharBuffer, null, caller, new, ensure_capacity, begin_input}
use ios_webkit_debug_proxy.CharBuffer.Capacity.{IsValid, ensure_capacity-overflow}
use ios_webkit_debug_proxy.CharBuffer.Stream.{IsReading, begin_input-IsReading}

abbrev always : ℕ → Bool
always n = true

-- Three bytes behind two that were read.
abbrev held : CharBuffer
held = record { begin = true; head = 2; tail = 5; end = 6; live = 7 ∷ 8 ∷ 9 ∷ []; input = null }

held-IsValid : IsValid held
held-IsValid = record {
  head_le = omega arith;
  tail_le = omega arith;
  counted = refl;
  empty = λ e. cc e;
}

ensure_capacity-overflow_example :
    let (status, d) = ensure_capacity always held (2 ^ 64 - 2) in
    (status ≡ success) × (d.end < d.tail + (2 ^ 64 - 2))
ensure_capacity-overflow_example =
    ensure_capacity-overflow always held (2 ^ 64 - 2) held-IsValid refl (omega arith) (omega arith)
      (omega arith) (omega arith) (λ n h. refl)

begin_input-IsReading_example :
    (s : Status) × (d : CharBuffer) × (begin_input always held (some (1 ∷ 2 ∷ [])) ≡ some (s, d))
    × (s ≡ success → IsReading (held.live ++ (1 ∷ 2 ∷ [])) d)
    × (s ≡ error → IsValid d × (d.live ≡ held.live))
    × (((n : ℕ) → always n ≡ true) → s ≡ success)
begin_input-IsReading_example =
    begin_input-IsReading always held (1 ∷ 2 ∷ []) held-IsValid (omega arith)

abbrev shared : CharBuffer
shared = record new { input = caller (1 ∷ 2 ∷ []) }

shared-IsReading : IsReading (1 ∷ 2 ∷ []) shared
unfolding new
shared-IsReading = record {
  valid = record {
    head_le = omega arith;
    tail_le = omega arith;
    counted = refl;
    empty = λ e. refl;
  };
  view_at = inl (refl, refl);
}
