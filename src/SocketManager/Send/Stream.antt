-- ===== src/SocketManager/Send/Stream.antt =====
-- src/socket_manager.c: the bytes of a socket, those that are on the wire and those in its queue.
pub mod Push
pub mod Growing
pub mod Sending
pub mod Finish
pub mod Resending
use ios_webkit_debug_proxy.Prelude.{
  ℕ, zero, suc, ◌+◌, ◌<◌, ◌≤◌, ◌≡◌, ◌≢◌, refl, sym, ap, ◌∙◌, inl, inr, Bool, true, false, not, ◌&&◌,
  Bool-cases, Option, some, none, List, [], ◌∷◌, ◌++◌, append_assoc, append-nil, length, take, drop,
  arith, ◌==◌, ℕ_discrete,
}
use ios_webkit_debug_proxy.HashTable.{HashTable, put, get_value}
use ios_webkit_debug_proxy.HashTable.Keys.{int_keys, int_keys-IsLawful}
use ios_webkit_debug_proxy.HashTable.Table.{IsValid, view}
use ios_webkit_debug_proxy.HashTable.Laws.{IsUpdate}
use ios_webkit_debug_proxy.HashTable.Ops.{put_lem, get_value_lem}
use ios_webkit_debug_proxy.SocketManager.{SocketManager, Sendq}
use ios_webkit_debug_proxy.SocketManager.Send.{
  Sent, count, again, Output, items, rest_of, queue_of, with_queue, pause,
}

abbrev pub Queues : Type 0 → Type 0
Queues V = HashTable ℕ (List (Sendq V))

-- The bytes that the items of a queue have not sent.
unfoldable pub unsent : {V : Type 0} → List (Sendq V) → List ℕ
unsent [] = []
unsent (q ∷ qs) = rest_of q ++ unsent qs

pub unsent-append :
    {V : Type 0} (qs rs : List (Sendq V)) → unsent (qs ++ rs) ≡ unsent qs ++ unsent rs
unfolding unsent
unsent-append [] rs = refl
unsent-append (q ∷ qs) rs =
    rw (unsent-append qs rs) (sym (append_assoc (rest_of q) (unsent qs) (unsent rs)))

-- What `send` and `SSL_write` do to the bytes that are on the wire to each socket: a count says how
-- many of the bytes have been taken, and `SSL_write` does not answer 0 for this.
pub record OutputLaws {S W : Type 0} (output : Output S W) (wire : W → ℕ → List ℕ) : Type 0 where
  pub sent :
      (w : W) (fd n : ℕ) (b : List ℕ)
      → (output.send w fd b).0 ≡ count n
      → wire (output.send w fd b).1 fd ≡ wire w fd ++ take n b
  pub waits :
      (w : W) (fd : ℕ) (b : List ℕ)
      → (output.send w fd b).0 ≡ again
      → wire (output.send w fd b).1 fd ≡ wire w fd
  pub others :
      (w : W) (fd other : ℕ) (b : List ℕ)
      → fd ≢ other
      → wire (output.send w fd b).1 other ≡ wire w other
  pub ssl_sent :
      (w : W) (ssl : S) (fd n : ℕ) (b : List ℕ)
      → (output.ssl_write w ssl fd b).0 ≡ count n
      → (0 < n) × (wire (output.ssl_write w ssl fd b).1 fd ≡ wire w fd ++ take n b)
  pub ssl_waits :
      (w : W) (ssl : S) (fd : ℕ) (b : List ℕ)
      → (output.ssl_write w ssl fd b).0 ≡ again
      → wire (output.ssl_write w ssl fd b).1 fd ≡ wire w fd
  pub ssl_others :
      (w : W) (ssl : S) (fd other : ℕ) (b : List ℕ)
      → fd ≢ other
      → wire (output.ssl_write w ssl fd b).1 other ≡ wire w other

-- The bytes that have been sent and those that are queued, in their order.
unfoldable pub stream : {V W : Type 0} → (W → ℕ → List ℕ) → W → Queues V → ℕ → List ℕ
unfolding unsent view
stream wire w queues fd = wire w fd ++ unsent (items (view int_keys queues fd))

module _ {V S W : Type 0} where
  pub pause-queues : (my : SocketManager V S W) → (pause my).fd_to_sendq ≡ my.fd_to_sendq
  unfolding pause
  pause-queues my = elim (Bool-cases (not (my.curr_recv_fd == 0) && my.recv_fds my.curr_recv_fd)) [
    | inl y ↦ rw y refl
    | inr n ↦ rw n refl
  ]

  pub pause-world : (my : SocketManager V S W) → (pause my).world ≡ my.world
  unfolding pause
  pause-world my = elim (Bool-cases (not (my.curr_recv_fd == 0) && my.recv_fds my.curr_recv_fd)) [
    | inl y ↦ rw y refl
    | inr n ↦ rw n refl
  ]

  -- The queue of a socket exchanged.
  pub with_queue-IsUpdate :
      (my : SocketManager V S W) (fd : ℕ) (q : Option (List (Sendq V)))
      → IsValid int_keys my.fd_to_sendq
      → IsUpdate int_keys my.fd_to_sendq fd q (with_queue my fd q).fd_to_sendq
  with_queue-IsUpdate my fd q valid =
      (put_lem int_keys int_keys-IsLawful my.fd_to_sendq fd q valid).1

  pub queue_of-view :
      (my : SocketManager V S W) (fd : ℕ)
      → IsValid int_keys my.fd_to_sendq
      → queue_of my fd ≡ items (view int_keys my.fd_to_sendq fd)
  unfolding queue_of
  queue_of-view my fd valid =
      ap items (get_value_lem int_keys int_keys-IsLawful my.fd_to_sendq fd valid).0

  -- Looking a queue up changes no stream.
  pub get_value-stream :
      (wire : W → ℕ → List ℕ) (my : SocketManager V S W) (fd : ℕ)
      → IsValid int_keys my.fd_to_sendq
      → (k : ℕ)
      → stream wire my.world (get_value int_keys my.fd_to_sendq fd).1 k
        ≡ stream wire my.world my.fd_to_sendq k
  unfolding stream
  get_value-stream wire my fd valid k =
      let up = (get_value_lem int_keys int_keys-IsLawful my.fd_to_sendq fd valid).1 in
      let found : view int_keys (get_value int_keys my.fd_to_sendq fd).1 k
          ≡ view int_keys my.fd_to_sendq k =
        elim (ℕ_discrete fd k) [ yes same ↦ rw (← same) up.here | no ne ↦ up.elsewhere k ne ] in
      ap (λ q. wire my.world k ++ unsent (items q)) found
