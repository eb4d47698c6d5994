-- ===== src/SocketManager/Send/Stream/Growing.antt =====
-- src/socket_manager.c: the end of `sm_send`, as a change of the streams of bytes.
use ios_webkit_debug_proxy.Prelude.{
  ℕ, ◌≡◌, ◌≢◌, refl, sym, ap, ap₂, ◌∙◌, Option, some, none, List, [], ◌∷◌, ◌++◌, append_assoc,
  append-nil,
}
use ios_webkit_debug_proxy.HashTable.Keys.{int_keys}
use ios_webkit_debug_proxy.HashTable.Table.{IsValid, view}
use ios_webkit_debug_proxy.HashTable.Laws.{IsUpdate}
use ios_webkit_debug_proxy.SocketManager.{SocketManager, Sendq, fd_set}
use ios_webkit_debug_proxy.SocketManager.Send.{
  OnSent, items, with_queue, with_world, pause, enqueue,
}
use ios_webkit_debug_proxy.SocketManager.Send.Stream.{
  unsent, unsent-append, stream, pause-queues, pause-world, with_queue-IsUpdate,
}

module _ {V S W : Type 0} (wire : W → ℕ → List ℕ) where
  -- A callback that leaves the queues and what is on the wire as they are.
  pub record IsQuiet (on_sent : OnSent V S W) : Type 0 where
    pub queues :
        (my : SocketManager V S W) (fd : ℕ) (value : Option V) (b : List ℕ)
        → (on_sent my fd value b).fd_to_sendq ≡ my.fd_to_sendq
    pub wires :
        (my : SocketManager V S W) (fd : ℕ) (value : Option V) (b : List ℕ)
        → wire (on_sent my fd value b).world ≡ wire my.world

  -- The stream of one socket has new bytes at its end, and the other streams are as they were.
  pub record Grows (my my' : SocketManager V S W) (fd : ℕ) (b : List ℕ) : Type 0 where
    pub valid : IsValid int_keys my'.fd_to_sendq
    pub here :
        stream wire my'.world my'.fd_to_sendq fd ≡ stream wire my.world my.fd_to_sendq fd ++ b
    pub elsewhere :
        (other : ℕ)
        → fd ≢ other
        → stream wire my'.world my'.fd_to_sendq other ≡ stream wire my.world my.fd_to_sendq other

  pause-Grows :
      (my my' : SocketManager V S W) (fd : ℕ) (b : List ℕ)
      → Grows my my' fd b
      → Grows my (pause my') fd b
  pause-Grows my my' fd b h = record {
    valid = rw (pause-queues my') h.valid;
    here = rw (pause-queues my', pause-world my') h.here;
    elsewhere = λ other ne. rw (pause-queues my', pause-world my') (h.elsewhere other ne);
  }

  -- A new queue for the socket, and new bytes on its wire, that make up for each other.
  pub grown :
      (my my' : SocketManager V S W) (fd : ℕ) (b : List ℕ) (q : Option (List (Sendq V)))
      → IsUpdate int_keys my.fd_to_sendq fd q my'.fd_to_sendq
      → wire my'.world fd ++ unsent (items q)
        ≡ (wire my.world fd ++ unsent (items (view int_keys my.fd_to_sendq fd))) ++ b
      → ((other : ℕ) → fd ≢ other → wire my'.world other ≡ wire my.world other)
      → Grows my my' fd b
  unfolding stream
  grown my my' fd b q up whole others = record {
    valid = up.valid;
    here = ap (λ x. wire my'.world fd ++ unsent (items x)) up.here ∙ whole;
    elsewhere =
        λ other ne. ap₂ (λ x y. x ++ unsent (items y)) (others other ne) (up.elsewhere other ne);
  }

  pub enqueue-some :
      (my : SocketManager V S W) (fd : ℕ) (q : List (Sendq V)) (value : Option V) (b : List ℕ)
      → IsValid int_keys my.fd_to_sendq
      → view int_keys my.fd_to_sendq fd ≡ some q
      → Grows my (enqueue my fd (some q) value b) fd b
  unfolding enqueue unsent
  enqueue-some my fd q value b valid found =
      let item : Sendq V = record {
        value = value;
        recv_fd = my.curr_recv_fd;
        begin = b;
        head = 0;
      } in
      let q' = q ++ (item ∷ []) in
      pause-Grows my (with_queue my fd (some q')) fd b (
        grown my (with_queue my fd (some q')) fd b (some q')
          (with_queue-IsUpdate my fd (some q') valid)
          (rw found (
            ap (λ x. wire my.world fd ++ x)
              (unsent-append q (item ∷ []) ∙ ap (λ x. unsent q ++ x) (append-nil b))
            ∙ sym (append_assoc (wire my.world fd) (unsent q) b)))
          (λ other ne. refl))

  pub enqueue-none :
      (my : SocketManager V S W) (w : W) (fd : ℕ) (value : Option V) (b bytes : List ℕ)
      → IsValid int_keys my.fd_to_sendq
      → view int_keys my.fd_to_sendq fd ≡ none
      → wire w fd ++ b ≡ wire my.world fd ++ bytes
      → ((other : ℕ) → fd ≢ other → wire w other ≡ wire my.world other)
      → Grows my (enqueue (with_world my w) fd none value b) fd bytes
  unfolding enqueue unsent
  enqueue-none my w fd value b bytes valid absent whole others =
      let item : Sendq V = record {
        value = value;
        recv_fd = my.curr_recv_fd;
        begin = b;
        head = 0;
      } in
      let my₁ = with_queue (with_world my w) fd (some (item ∷ [])) in
      let my₂ = record my₁ { send_fds = fd_set my₁.send_fds fd } in
      pause-Grows my my₂ fd bytes (
        grown my my₂ fd bytes (some (item ∷ []))
          (with_queue-IsUpdate my fd (some (item ∷ [])) valid)
          (rw absent (
            ap (λ x. wire w fd ++ x) (append-nil b)
            ∙ whole
            ∙ ap (λ x. x ++ bytes) (sym (append-nil (wire my.world fd)))))
          others)

  -- Nothing is queued, and the bytes are on the wire.
  pub sent-Grows :
      (my my' : SocketManager V S W) (fd : ℕ) (bytes : List ℕ)
      → IsValid int_keys my.fd_to_sendq
      → view int_keys my.fd_to_sendq fd ≡ none
      → my'.fd_to_sendq ≡ my.fd_to_sendq
      → wire my'.world fd ≡ wire my.world fd ++ bytes
      → ((other : ℕ) → fd ≢ other → wire my'.world other ≡ wire my.world other)
      → Grows my my' fd bytes
  unfolding unsent
  sent-Grows my my' fd bytes valid absent same whole others =
      grown my my' fd bytes none
        (rw same (record { valid = valid; here = absent; elsewhere = λ k ne. refl }))
        (rw absent (
          append-nil (wire my'.world fd)
          ∙ whole
          ∙ ap (λ x. x ++ bytes) (sym (append-nil (wire my.world fd)))))
        others

  pub from_same_streams :
      (my my₁ my' : SocketManager V S W) (fd : ℕ) (b : List ℕ)
      → ((k : ℕ) → stream wire my₁.world my₁.fd_to_sendq k ≡ stream wire my.world my.fd_to_sendq k)
      → Grows my₁ my' fd b
      → Grows my my' fd b
  from_same_streams my my₁ my' fd b same h = record {
    valid = h.valid;
    here = h.here ∙ ap (λ x. x ++ b) (same fd);
    elsewhere = λ other ne. h.elsewhere other ne ∙ same other;
  }
