-- ===== src/SocketManager/Send/Stream/Sending.antt =====
-- src/socket_manager.c: `sm_send` as an operation on the streams of bytes.
use ios_webkit_debug_proxy.Prelude.{
  ℕ, suc, ◌≡◌, refl, sym, ap, ◌∙◌, inl, inr, Option, some, none, Option-cases, List, append-nil,
  length, arith,
}
use ios_webkit_debug_proxy.Prelude.Status.{Status, success, error}
use ios_webkit_debug_proxy.HashTable.{get_value}
use ios_webkit_debug_proxy.HashTable.Keys.{int_keys, int_keys-IsLawful}
use ios_webkit_debug_proxy.HashTable.Table.{IsValid, view}
use ios_webkit_debug_proxy.HashTable.Laws.{IsUpdate}
use ios_webkit_debug_proxy.HashTable.Ops.{get_value_lem}
use ios_webkit_debug_proxy.SocketManager.{SocketManager}
use ios_webkit_debug_proxy.SocketManager.Send.{
  Pushed, all, left, broken, Output, OnSent, with_world, enqueue, push, send,
}
use ios_webkit_debug_proxy.SocketManager.Send.Stream.{OutputLaws, get_value-stream}
use ios_webkit_debug_proxy.SocketManager.Send.Stream.Push.{IsPush, push_lem}
use ios_webkit_debug_proxy.SocketManager.Send.Stream.Growing.{
  IsQuiet, Grows, enqueue-some, enqueue-none, sent-Grows, from_same_streams,
}

module _ {V S W : Type 0} (wire : W → ℕ → List ℕ) (output : Output S W)
    (laws : OutputLaws output wire) (on_sent : OnSent V S W) (quiet : IsQuiet wire on_sent) where
  abbrev HasSent : SocketManager V S W → ℕ → List ℕ → Option (Status × SocketManager V S W) → Type 0
  HasSent my fd b o =
      (s : Status) × (my' : SocketManager V S W) × (o ≡ some (s, my'))
      × (s ≡ success → Grows wire my my' fd b)

  module _ (my : SocketManager V S W) (fd : ℕ) (bytes : List ℕ) (value : Option V)
      (valid : IsValid int_keys my.fd_to_sendq)
      (absent : (get_value int_keys my.fd_to_sendq fd).0 ≡ none) where
    -- The state in which the bytes are pushed.
    abbrev looked_up : SocketManager V S W
    looked_up = record my {
      fd_to_sendq = (get_value int_keys my.fd_to_sendq fd).1;
      fd_to_ssl = (get_value int_keys my.fd_to_ssl fd).1;
    }

    abbrev session : Option S
    session = (get_value int_keys my.fd_to_ssl fd).0

    up : IsUpdate int_keys my.fd_to_sendq fd (view int_keys my.fd_to_sendq fd) looked_up.fd_to_sendq
    up = (get_value_lem int_keys int_keys-IsLawful my.fd_to_sendq fd valid).1

    no_queue : view int_keys looked_up.fd_to_sendq fd ≡ none
    no_queue =
        up.here ∙ sym (get_value_lem int_keys int_keys-IsLawful my.fd_to_sendq fd valid).0 ∙ absent

    pushed-HasSent :
        (p : Pushed) (w : W)
        → push output (suc (length bytes)) my.world session fd bytes ≡ some (p, w)
        → IsPush output wire laws session my.world fd bytes p w
        → HasSent my fd bytes (send output on_sent my fd bytes value)
    unfolding send
    pushed-HasSent broken w ran ok =
        (error, with_world looked_up w, rw (absent, ran, send) refl, λ h. absurd (cc h))
    pushed-HasSent (left b) w ran ok = (
      success,
      enqueue (with_world looked_up w) fd none value b,
      rw (absent, ran, send) refl,
      λ h. from_same_streams wire my looked_up _ fd bytes (get_value-stream wire my fd valid) (
          enqueue-none wire looked_up w fd value b bytes up.valid no_queue
            (ok.whole (λ e. absurd (cc e))) ok.others),
    )
    pushed-HasSent all w ran ok =
        let kept = quiet.wires (with_world looked_up w) fd value bytes in
        (
          success,
          on_sent (with_world looked_up w) fd value bytes,
          rw (absent, ran, send) refl,
          λ h. from_same_streams wire my looked_up _ fd bytes (get_value-stream wire my fd valid) (
              sent-Grows wire looked_up (on_sent (with_world looked_up w) fd value bytes) fd bytes
                up.valid no_queue (quiet.queues (with_world looked_up w) fd value bytes)
                (ap (λ f. f fd) kept ∙ sym (append-nil (wire w fd)) ∙ ok.whole (λ e. absurd (cc e)))
                (λ other ne. ap (λ f. f other) kept ∙ ok.others other ne)),
        )

  -- If every call of the output tells how many bytes it took, and `on_sent` leaves the queues and
  -- the wires alone: on a valid table of queues `sm_send` returns. If it succeeds, the stream of its
  -- socket, which is the bytes sent and behind them those queued, ends with the new bytes, the
  -- other streams are as they were, and the table is valid.
  pub send_lem :
      (my : SocketManager V S W) (fd : ℕ) (bytes : List ℕ) (value : Option V)
      → IsValid int_keys my.fd_to_sendq
      → (s : Status) × (my' : SocketManager V S W) × (send output on_sent my fd bytes value
          ≡ some (s, my'))
        × (s ≡ success → Grows wire my my' fd bytes)
  unfolding send
  send_lem my fd bytes value valid =
      let t = (get_value int_keys my.fd_to_sendq fd).1 in
      let my₁ = record my { fd_to_sendq = t } in
      let (at, up) = get_value_lem int_keys int_keys-IsLawful my.fd_to_sendq fd valid in
      let same = get_value-stream wire my fd valid in
      elim (Option-cases (get_value int_keys my.fd_to_sendq fd).0) [
        | inr (q, found) ↦ (
          success,
          enqueue my₁ fd (some q) value bytes,
          rw (found, send) refl,
          λ h.
              from_same_streams wire my my₁ _ fd bytes same
                (enqueue-some wire my₁ fd q value bytes up.valid (up.here ∙ sym at ∙ found)),
        )
        | inl absent ↦
            let (p, w, ran, ok) =
              push_lem output wire laws (suc (length bytes)) my.world
                (get_value int_keys my.fd_to_ssl fd).0 fd bytes (omega arith) in
            pushed-HasSent my fd bytes value valid absent p w ran ok
      ]
