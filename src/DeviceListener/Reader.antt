-- ===== src/DeviceListener/Reader.antt =====
-- The reader of usbmuxd's stream: `dl_recv_loop` and `dl_on_recv`.
pub mod Laws
use ios_webkit_debug_proxy.Prelude.{
  ℕ, zero, suc, ◌+◌, ◌*◌, Bool, true, false, not, ◌&&◌, Option, some, none, List, [], ◌∷◌, length,
  take, drop, leb, if◌then◌else◌,
}
use ios_webkit_debug_proxy.Prelude.Status.{Status, success, error}
use ios_webkit_debug_proxy.CharBuffer.{begin_input, end_input, unread, with_unread}
use ios_webkit_debug_proxy.Framing.{Reader, Source, Outcome}
use ios_webkit_debug_proxy.DeviceListener.Wire.{sscanf_uint32}

-- `recv_packet` is `dl_recv_packet` on what it acts on. The fields `has_length` and `body_length`
-- of `struct dl_private` are those of `Reader`, `in` is that of `Source`.
module _ {X : Type 0} (recv_packet : X → List ℕ → Status × X) where
  -- One call is the loop with `u` between `in_head` and `in_tail`; `none` if the fuel runs out.
  unfoldable pub recv_loop : ℕ → List ℕ → Reader X → Outcome X
  recv_loop zero u my = none
  recv_loop (suc f) u my =
      let read : Outcome X =
        recv_loop f u (record my { body_length = sscanf_uint32 (take 4 u); has_length = true }) in
      let (ret, x) = recv_packet my.rest (take my.body_length u) in
      let rest = drop my.body_length u in
      let my' : Reader X = record { has_length = false; body_length = 0; rest = x } in
      let handled : Outcome X = elim ret [
        | error ↦ some (error, rest, my')
        | success ↦ recv_loop f rest my'
      ] in
      if not my.has_length && leb 4 (length u)
      then read
      else if my.has_length && leb my.body_length (length u)
      then handled
      else some (success, u, my)

  -- No `buf` is a NULL pointer or a negative length. The fuel is enough for every input.
  unfoldable pub on_recv : (ℕ → Bool) → Source X → Option (List ℕ) → Option (Status × Source X)
  on_recv alloc my none = some (error, my)
  on_recv alloc my (some []) = some (success, my)
  on_recv alloc my (some (b ∷ bs)) = elim (begin_input alloc my.input (some (b ∷ bs))) [
    | none ↦ none
    | some (error, c) ↦ some (error, record my { input = c })
    | some (success, c) ↦ elim (recv_loop (2 * length (unread c) + 2) (unread c) my.reader) [
      | none ↦ none
      | some (ret, u, reader) ↦ elim (end_input alloc (with_unread c u)) [
        | none ↦ none
        | some (error, e) ↦ some (error, record { input = e; reader = reader })
        | some (success, e) ↦ some (ret, record { input = e; reader = reader })
      ]
    ]
  ]
