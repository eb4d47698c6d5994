-- ===== src/WebInspector/Reader/Laws.antt =====
-- The inspector's reader as an instance of the packet loop of Framing.antt, with what follows.
use mathlib.Core.List.{flatten}
use ios_webkit_debug_proxy.Prelude.{
  ℕ, zero, suc, ◌+◌, ◌*◌, ◌≤◌, ◌<◌, ◌≡◌, refl, sym, ◌∙◌, Bool, true, false, Option, some, none,
  List, map, [], ◌∷◌, ◌++◌, length, take, drop, arith,
}
use ios_webkit_debug_proxy.Prelude.Status.{Status, success, error}
use ios_webkit_debug_proxy.CharBuffer.{
  CharBuffer, size_mod, begin_input, end_input, unread, with_unread,
}
use ios_webkit_debug_proxy.CharBuffer.Capacity.{IsValid}
use ios_webkit_debug_proxy.Framing.{Reader, Source, loop, run, receive}
use ios_webkit_debug_proxy.Framing.Loop.{Progress}
use ios_webkit_debug_proxy.Framing.Receive.{receive_chunks, receive_lem}
use ios_webkit_debug_proxy.Framing.Packets.{IsPacket, AllPackets, idle}
use ios_webkit_debug_proxy.Framing.Deliver.{HasDelivered, deliver_all}
use ios_webkit_debug_proxy.WebInspector.Packet.{max_body_length, parse_length}
use ios_webkit_debug_proxy.WebInspector.Packet.Laws.{
  frame, length-length_bytes, take-length_bytes, parse_length-length_bytes,
}
use ios_webkit_debug_proxy.WebInspector.Reader.{recv_loop, on_recv}

header : List ℕ → Option ℕ
header four = let (s, n) = parse_length four in elim s [ error ↦ none | success ↦ some n ]

abbrev extent : ℕ → ℕ
extent n = n + 4

abbrev pub AllFit : List (List ℕ) → Type 0
AllFit [] = Unit
AllFit (b ∷ bs) = (length b ≤ max_body_length) × AllFit bs

header-read : (four : List ℕ) (n : ℕ) → parse_length four ≡ (success, n) → header four ≡ some n
unfolding header
header-read four n e = ground arith

frame-IsPacket :
    (body : List ℕ) → length body ≤ max_body_length → IsPacket header extent (frame body)
frame-IsPacket body fits = record {
  body = length body;
  long = omega (arith, length-length_bytes (length body) body);
  read = rw take-length_bytes (header-read _ _ (parse_length-length_bytes (length body) fits));
  whole = sym (length-length_bytes (length body) body);
}

frames-AllPackets :
    (bodies : List (List ℕ)) → AllFit bodies → AllPackets header extent (map frame bodies)
frames-AllPackets [] fit = tt
frames-AllPackets (b ∷ bs) fit = (frame-IsPacket b fit.0, frames-AllPackets bs fit.1)

module _ {X : Type 0} (recv_packet : X → List ℕ → Status × X) where
  recv_loop-loop :
      (f : ℕ) (u : List ℕ) (my : Reader X)
      → recv_loop recv_packet f u my ≡ loop header extent recv_packet f u my
  unfolding recv_loop loop header
  recv_loop-loop zero u my = refl
  recv_loop-loop (suc f) u my = ground (
    arith,
    recv_loop-loop f u (record my { body_length = (parse_length (take 4 u)).1; has_length = true }),
    recv_loop-loop f (drop (my.body_length + 4) u) (record {
      has_length = false;
      body_length = 0;
      rest = (recv_packet my.rest (take (my.body_length + 4) u)).1;
    }),
  )

  on_recv-receive :
      (alloc : ℕ → Bool) (my : Source X) (buf : Option (List ℕ))
      → on_recv recv_packet alloc my buf ≡ receive header extent recv_packet alloc my buf
  unfolding on_recv receive run
  on_recv-receive alloc my none = refl
  on_recv-receive alloc my (some []) = refl
  on_recv-receive alloc my (some (b ∷ bs)) = λ i.
      elim (begin_input alloc my.input (some (b ∷ bs))) [
        | none ↦ none
        | some (error, c) ↦ some (error, record my { input = c })
        | some (success, c) ↦
            elim (recv_loop-loop (2 * length (unread c) + 2) (unread c) my.reader i) [
              | none ↦ none
              | some (ret, u, reader) ↦ elim (end_input alloc (with_unread c u)) [
                | none ↦ none
                | some (error, e) ↦ some (error, record { input = e; reader = reader })
                | some (success, e) ↦ some (ret, record { input = e; reader = reader })
              ]
            ]
      ]

  progress : Progress header extent recv_packet
  progress n x p size ok = omega arith

  -- `wi_on_recv` always returns: the loop ends, no write leaves the buffer's block, and the buffer is
  -- valid again. Memory is not exhausted and the bytes held stay below 2 ^ 64.
  pub on_recv_total :
      (alloc : ℕ → Bool) (my : Source X) (buf : List ℕ)
      → ((n : ℕ) → alloc n ≡ true)
      → IsValid my.input
      → length my.input.live + length buf < size_mod
      → (s : Status) × (my' : Source X) × (on_recv recv_packet alloc my (some buf) ≡ some (s, my'))
        × IsValid my'.input
        × (length my'.input.live ≤ length my.input.live + length buf)
  on_recv_total alloc my [] all valid small =
      (success, my, unfold on_recv in refl, valid, omega arith)
  on_recv_total alloc my (b ∷ bs) all valid small =
      let (s, my', d) =
        receive_lem header extent recv_packet alloc progress all my b bs valid small in
      (s, my', on_recv-receive alloc my (some (b ∷ bs)) ∙ d.returns, d.valid, d.shorter)

  -- However the stream of an inspector is cut into the pieces that `wi_on_recv` is given, the same
  -- packets are handled with the same result: after a piece that was accepted, the next piece has
  -- the status, the packet handler's state, the reader's state and the unread bytes of both pieces
  -- given at once. Memory is not exhausted and the bytes held stay below 2 ^ 64.
  pub on_recv_chunks :
      (alloc : ℕ → Bool) (my my₁ : Source X) (a b : List ℕ)
      → ((n : ℕ) → alloc n ≡ true)
      → IsValid my.input
      → length my.input.live + length (a ++ b) < size_mod
      → on_recv recv_packet alloc my (some a) ≡ some (success, my₁)
      → (s : Status) × (my₂ : Source X) × (my₂' : Source X) × (on_recv recv_packet alloc my₁
            (some b)
          ≡ some (s, my₂))
        × (on_recv recv_packet alloc my (some (a ++ b)) ≡ some (s, my₂'))
        × (my₂.reader ≡ my₂'.reader)
        × (my₂.input.live ≡ my₂'.input.live)
  on_recv_chunks alloc my my₁ a b all valid small first =
      let (s, m, m', e, e', r, l) =
        receive_chunks header extent recv_packet alloc progress all my my₁ a b valid small
          (sym (on_recv-receive alloc my (some a)) ∙ first) in
      (
        s,
        m,
        m',
        on_recv-receive alloc my₁ (some b) ∙ e,
        on_recv-receive alloc my (some (a ++ b)) ∙ e',
        r,
        l,
      )

  -- A reader between packets that is given a row of packets as `wi_send` writes them, none over the
  -- limit, hands each of them, header included, to the packet handler in order, up to the first
  -- that is refused; if none is, nothing is left unread. Memory is not exhausted and the bytes stay
  -- below 2 ^ 64.
  pub on_recv-sent :
      (alloc : ℕ → Bool) (input : CharBuffer) (x : X) (bodies : List (List ℕ))
      → ((n : ℕ) → alloc n ≡ true)
      → IsValid input
      → input.live ≡ []
      → AllFit bodies
      → length (flatten (map frame bodies)) < size_mod
      → (s : Status) × (my' : Source X) × (on_recv recv_packet alloc
            (record { input = input; reader = idle x })
            (some (flatten (map frame bodies)))
          ≡ some (s, my'))
        × HasDelivered recv_packet x (map frame bodies) s my'
  on_recv-sent alloc input x bodies all valid empty fit small =
      let (s, my', e, d) =
        deliver_all header extent recv_packet alloc progress all input x valid empty
          (map frame bodies) (flatten (map frame bodies)) (frames-AllPackets bodies fit) refl
          small in
      (s, my', on_recv-receive alloc _ _ ∙ e, d)
