-- ===== src/Framing.antt =====
-- What `wi_recv_loop` of src/webinspector.c and `dl_recv_loop` of src/device_listener.c share: both
-- cut a stream of bytes into packets that begin with a 4-byte length. The two functions are
-- modelled in WebInspector/Reader.antt and DeviceListener/Reader.antt, and are shown there to be
-- instances of `loop` and `receive`, about which the children of this file prove the laws.
pub mod Loop
pub mod Packets
pub mod Receive
pub mod Deliver
use ios_webkit_debug_proxy.Prelude.{
  ℕ, zero, suc, ◌+◌, ◌*◌, Bool, true, false, not, ◌&&◌, Option, some, none, List, [], ◌∷◌, ◌++◌,
  length, take, drop, leb, if◌then◌else◌,
}
use ios_webkit_debug_proxy.Prelude.Status.{Status, success, error}
use ios_webkit_debug_proxy.CharBuffer.{CharBuffer, begin_input, end_input, unread, with_unread}

-- `has_length`, `body_length`, and what the packet handler acts on.
pub record Reader (X : Type 0) : Type 0 where
  pub has_length : Bool
  pub body_length : ℕ
  pub rest : X

pub record Source (X : Type 0) : Type 0 where
  pub input : CharBuffer
  pub reader : Reader X

-- The status, the bytes left, and the reader's new state; `none` if the fuel ran out.
abbrev pub Outcome : Type 0 → Type 0
Outcome X = Option (Status × List ℕ × Reader X)

-- `header` reads a length from the first four bytes, or refuses them; a packet whose length reads
-- `n` takes `extent n` bytes of the stream; `recv` handles it.
module _ {X : Type 0} (header : List ℕ → Option ℕ) (extent : ℕ → ℕ)
    (recv : X → List ℕ → Status × X) where
  unfoldable pub loop : ℕ → List ℕ → Reader X → Outcome X
  loop zero u r = none
  loop (suc f) u r =
      let read : Outcome X = elim (header (take 4 u)) [
        | none ↦ some (error, drop 4 u, r)
        | some n ↦ loop f u (record r { body_length = n; has_length = true })
      ] in
      let (s, x) = recv r.rest (take (extent r.body_length) u) in
      let r' : Reader X = record { has_length = false; body_length = 0; rest = x } in
      let handled : Outcome X = elim s [
        | error ↦ some (error, drop (extent r.body_length) u, r')
        | success ↦ loop f (drop (extent r.body_length) u) r'
      ] in
      if not r.has_length && leb 4 (length u)
      then read
      else if r.has_length && leb (extent r.body_length) (length u)
      then handled
      else some (success, u, r)

  -- Each round either reads a length or takes a packet away.
  abbrev pub rounds : List ℕ → ℕ
  rounds u = 2 * length u + 2

  unfoldable pub run : List ℕ → Reader X → Outcome X
  run u r = loop (rounds u) u r

  unfoldable pub receive : (ℕ → Bool) → Source X → Option (List ℕ) → Option (Status × Source X)
  receive alloc my none = some (error, my)
  receive alloc my (some []) = some (success, my)
  receive alloc my (some (b ∷ bs)) = elim (begin_input alloc my.input (some (b ∷ bs))) [
    | none ↦ none
    | some (error, c) ↦ some (error, record my { input = c })
    | some (success, c) ↦ elim (run (unread c) my.reader) [
      | none ↦ none
      | some (s, u, r) ↦ elim (end_input alloc (with_unread c u)) [
        | none ↦ none
        | some (error, e) ↦ some (error, record { input = e; reader = r })
        | some (success, e) ↦ some (s, record { input = e; reader = r })
      ]
    ]
  ]

-- The packets of a list, handled in order up to the first that is refused.
unfoldable pub deliver : {X : Type 0} → (X → List ℕ → Status × X) → X → List (List ℕ) → Status × X
deliver recv x [] = (success, x)
deliver recv x (p ∷ ps) =
    let (s, x') = recv x p in elim s [ error ↦ (error, x') | success ↦ deliver recv x' ps ]
