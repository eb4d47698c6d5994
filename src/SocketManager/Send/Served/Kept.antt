-- ===== src/SocketManager/Send/Served/Kept.antt =====
-- src/socket_manager.c: `sm_send` and `sm_resend` leave no socket unread without a reason.
use ios_webkit_debug_proxy.Prelude.{
  ℕ, suc, ◌≡◌, refl, sym, ap, subst, ◌∙◌, inl, inr, true, Option, some, none, Option-cases, List,
  [], ◌∷◌, ◌++◌, length, any-append, arith, ◌==◌,
}
use ios_webkit_debug_proxy.Prelude.Status.{Status, success, error}
use ios_webkit_debug_proxy.HashTable.{get_value}
use ios_webkit_debug_proxy.HashTable.Keys.{int_keys, int_keys-IsLawful}
use ios_webkit_debug_proxy.HashTable.Table.{IsValid, view}
use ios_webkit_debug_proxy.HashTable.Laws.{IsUpdate}
use ios_webkit_debug_proxy.HashTable.Ops.{get_value_lem}
use ios_webkit_debug_proxy.SocketManager.{SocketManager, Sendq, fd_set}
use ios_webkit_debug_proxy.SocketManager.Send.{
  Pushed, all, left, broken, Output, OnSent, items, with_queue, pause, enqueue, push, send,
}
use ios_webkit_debug_proxy.SocketManager.Send.Stream.{with_queue-IsUpdate}
use ios_webkit_debug_proxy.SocketManager.Send.Served.{
  waits_for, IsServed, awaited, requeued-IsServed, pause-IsServed,
}

module _ {V S W : Type 0} where
  -- A callback that leaves the queues alone, and which sockets are watched and read.
  pub record IsStill (on_sent : OnSent V S W) : Type 0 where
    pub queues :
        (my : SocketManager V S W) (fd : ℕ) (value : Option V) (b : List ℕ)
        → (on_sent my fd value b).fd_to_sendq ≡ my.fd_to_sendq
    pub watched :
        (my : SocketManager V S W) (fd : ℕ) (value : Option V) (b : List ℕ)
        → (on_sent my fd value b).all_fds ≡ my.all_fds
    pub read :
        (my : SocketManager V S W) (fd : ℕ) (value : Option V) (b : List ℕ)
        → (on_sent my fd value b).recv_fds ≡ my.recv_fds

  -- The predicate looks at three fields only.
  pub same_fields :
      (my my' : SocketManager V S W)
      → my'.fd_to_sendq ≡ my.fd_to_sendq
      → my'.all_fds ≡ my.all_fds
      → my'.recv_fds ≡ my.recv_fds
      → IsServed my
      → IsServed my'
  same_fields my my' t a r h fd watched nonzero = elim (h fd (rw a at watched) nonzero) [
    | inl y ↦ inl (rw r y)
    | inr w ↦ inr (awaited my' fd w.to_fd (some w.queue) (rw t w.queued) w.waits)
  ]

  pub looked_up-IsServed :
      (my my' : SocketManager V S W) (fd : ℕ)
      → IsValid int_keys my.fd_to_sendq
      → my'.fd_to_sendq ≡ (get_value int_keys my.fd_to_sendq fd).1
      → my'.all_fds ≡ my.all_fds
      → my'.recv_fds ≡ my.recv_fds
      → IsServed my
      → IsServed my'
  looked_up-IsServed my my' fd valid t a r h =
      requeued-IsServed my my' fd (view int_keys my.fd_to_sendq fd)
        (rw t (get_value_lem int_keys int_keys-IsLawful my.fd_to_sendq fd valid).1) (λ x w. w) a r h

  enqueued-IsServed :
      (my my' : SocketManager V S W) (fd : ℕ) (q : List (Sendq V)) (item : Sendq V)
      → IsUpdate int_keys my.fd_to_sendq fd (some (q ++ (item ∷ []))) my'.fd_to_sendq
      → items (view int_keys my.fd_to_sendq fd) ≡ q
      → item.recv_fd ≡ my'.curr_recv_fd
      → my'.all_fds ≡ my.all_fds
      → my'.recv_fds ≡ my.recv_fds
      → IsServed my
      → IsServed (pause my')
  enqueued-IsServed my my' fd q item up found mine a r h =
      let same : (item.recv_fd == my'.curr_recv_fd) ≡ true = ground (arith, mine) in
      let last : waits_for my'.curr_recv_fd (q ++ (item ∷ [])) ≡ true =
        ground (
          arith,
          same,
          any-append (λ (x : Sendq V). x.recv_fd == my'.curr_recv_fd) q (item ∷ []),
        ) in
      pause-IsServed my' (awaited my' my'.curr_recv_fd fd (some (q ++ (item ∷ []))) up.here last) (
        requeued-IsServed my my' fd (some (q ++ (item ∷ []))) up
          (λ x w.
            let before : waits_for x q ≡ true = rw found at w in
            ground (arith, before, any-append (λ (y : Sendq V). y.recv_fd == x) q (item ∷ [])))
          a r h)

  enqueue-IsServed :
      (my : SocketManager V S W) (fd : ℕ) (sendq : Option (List (Sendq V))) (value : Option V)
      (b : List ℕ)
      → IsValid int_keys my.fd_to_sendq
      → view int_keys my.fd_to_sendq fd ≡ sendq
      → IsServed my
      → IsServed (enqueue my fd sendq value b)
  unfolding enqueue
  enqueue-IsServed my fd (some q) value b valid found h =
      let item : Sendq V = record {
        value = value;
        recv_fd = my.curr_recv_fd;
        begin = b;
        head = 0;
      } in
      enqueued-IsServed my (with_queue my fd (some (q ++ (item ∷ [])))) fd q item
        (with_queue-IsUpdate my fd (some (q ++ (item ∷ []))) valid) (ap items found) refl refl refl
        h
  enqueue-IsServed my fd none value b valid found h =
      let item : Sendq V = record {
        value = value;
        recv_fd = my.curr_recv_fd;
        begin = b;
        head = 0;
      } in
      let my₁ = with_queue my fd (some (item ∷ [])) in
      enqueued-IsServed my (record my₁ { send_fds = fd_set my₁.send_fds fd }) fd [] item
        (with_queue-IsUpdate my fd (some (item ∷ [])) valid) (ap items found) refl refl refl h

  module _ (output : Output S W) (on_sent : OnSent V S W) (still : IsStill on_sent)
      (my : SocketManager V S W) (fd : ℕ) (bytes : List ℕ) (value : Option V)
      (valid : IsValid int_keys my.fd_to_sendq) (h : IsServed my) where
    -- The state in which the bytes are pushed, with the world of any later time.
    abbrev looked_up : W → SocketManager V S W
    looked_up w = record my {
      fd_to_sendq = (get_value int_keys my.fd_to_sendq fd).1;
      fd_to_ssl = (get_value int_keys my.fd_to_ssl fd).1;
      world = w;
    }

    at_fd :
        view int_keys (get_value int_keys my.fd_to_sendq fd).1 fd
        ≡ (get_value int_keys my.fd_to_sendq fd).0
    at_fd =
        let (at, up) = get_value_lem int_keys int_keys-IsLawful my.fd_to_sendq fd valid in
        up.here ∙ sym at

    looked_up-IsValid : IsValid int_keys (get_value int_keys my.fd_to_sendq fd).1
    looked_up-IsValid = (get_value_lem int_keys int_keys-IsLawful my.fd_to_sendq fd valid).1.valid

    looked_up_so : (w : W) → IsServed (looked_up w)
    looked_up_so w = looked_up-IsServed my (looked_up w) fd valid refl refl refl h

    -- What `sm_send` gives for each end of the loop over the bytes.
    abbrev sent_as : Pushed → W → Status × SocketManager V S W
    sent_as broken w = (error, looked_up w)
    sent_as all w = (success, on_sent (looked_up w) fd value bytes)
    sent_as (left b) w = (success, enqueue (looked_up w) fd none value b)

    sent_as-IsServed :
        (p : Pushed) (w : W)
        → (get_value int_keys my.fd_to_sendq fd).0 ≡ none
        → IsServed (sent_as p w).1
    sent_as-IsServed broken w absent = looked_up_so w
    sent_as-IsServed all w absent =
        same_fields (looked_up w) (on_sent (looked_up w) fd value bytes)
          (still.queues (looked_up w) fd value bytes) (still.watched (looked_up w) fd value bytes)
          (still.read (looked_up w) fd value bytes) (looked_up_so w)
    sent_as-IsServed (left b) w absent =
        enqueue-IsServed (looked_up w) fd none value b looked_up-IsValid (at_fd ∙ absent)
          (looked_up_so w)

    send-sent_as :
        (p : Pushed) (w : W)
        → (get_value int_keys my.fd_to_sendq fd).0 ≡ none
        → push output (suc (length bytes)) my.world (get_value int_keys my.fd_to_ssl fd).0 fd bytes
          ≡ some (p, w)
        → send output on_sent my fd bytes value ≡ some (sent_as p w)
    unfolding send
    send-sent_as broken w absent ran = rw (absent, ran, send) refl
    send-sent_as all w absent ran = rw (absent, ran, send) refl
    send-sent_as (left b) w absent ran = rw (absent, ran, send) refl

    send-none :
        (get_value int_keys my.fd_to_sendq fd).0 ≡ none
        → push output (suc (length bytes)) my.world (get_value int_keys my.fd_to_ssl fd).0 fd bytes
          ≡ none
        → send output on_sent my fd bytes value ≡ none
    unfolding send
    send-none absent ran = rw (absent, ran, send) refl

    send-queued :
        (q : List (Sendq V))
        → (get_value int_keys my.fd_to_sendq fd).0 ≡ some q
        → send output on_sent my fd bytes value
          ≡ some (
            success,
            enqueue
                (record my { fd_to_sendq = (get_value int_keys my.fd_to_sendq fd).1 })
                fd
                (some q)
                value
                bytes,
          )
    unfolding send
    send-queued q found = rw (found, send) refl

    pub send-IsServed :
        (s : Status) (my' : SocketManager V S W)
        → send output on_sent my fd bytes value ≡ some (s, my')
        → IsServed my'
    send-IsServed s my' ran = elim (Option-cases (get_value int_keys my.fd_to_sendq fd).0) [
      | inr (q, found) ↦
          let my₁ = record my { fd_to_sendq = (get_value int_keys my.fd_to_sendq fd).1 } in
          let same : enqueue my₁ fd (some q) value bytes ≡ my' =
            cc (sym (send-queued q found) ∙ ran) in
          subst (λ (x : SocketManager V S W). IsServed x) same
            (enqueue-IsServed my₁ fd (some q) value bytes looked_up-IsValid (at_fd ∙ found)
              (looked_up-IsServed my my₁ fd valid refl refl refl h))
      | inl absent ↦
          elim (Option-cases (
            push output (suc (length bytes)) my.world (get_value int_keys my.fd_to_ssl fd).0 fd
              bytes)) [
                | inl n ↦ absurd (cc (sym (send-none absent n) ∙ ran))
                | inr ((p, w), pushed) ↦
                    let same : (sent_as p w).1 ≡ my' =
                      cc (sym (send-sent_as p w absent pushed) ∙ ran) in
                    subst (λ (x : SocketManager V S W). IsServed x) same
                      (sent_as-IsServed p w absent)
              ]
    ]
