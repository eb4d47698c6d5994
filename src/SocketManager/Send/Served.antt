-- ===== src/SocketManager/Send/Served.antt =====
-- src/socket_manager.c: which sockets are read, and what those that are not read wait for.
pub mod Kept
pub mod Loop
use ios_webkit_debug_proxy.Prelude.{
  ℕ, zero, suc, ◌≡◌, ◌≢◌, ◌⊎◌, refl, sym, ap, subst, ◌∙◌, inl, inr, Bool, true, false, not, ◌&&◌,
  ◌||◌, Bool-cases, Option, some, none, List, [], ◌∷◌, ◌++◌, any, any-append, arith, ◌==◌,
  ℕ_discrete,
}
use ios_webkit_debug_proxy.HashTable.{values, size}
use ios_webkit_debug_proxy.HashTable.Keys.{int_keys, int_keys-IsLawful}
use ios_webkit_debug_proxy.HashTable.Table.{IsValid, view}
use ios_webkit_debug_proxy.HashTable.Laws.{IsUpdate}
use ios_webkit_debug_proxy.HashTable.Values.{values-any}
use ios_webkit_debug_proxy.SocketManager.{SocketManager, Sendq, fd_set, fd_clr}
use ios_webkit_debug_proxy.SocketManager.Send.{items, with_queue, pause, is_awaited, reenable}
use ios_webkit_debug_proxy.SocketManager.Send.Stream.{pause-queues}

-- Whether an item of the queue waits because of a socket.
abbrev pub waits_for : {V : Type 0} → ℕ → List (Sendq V) → Bool
waits_for fd q = any (λ (item : Sendq _). item.recv_fd == fd) q

module _ {V S W : Type 0} where
  -- Some queue has an item that waits because of the socket.
  pub record IsAwaited (my : SocketManager V S W) (fd : ℕ) : Type 0 where
    pub to_fd : ℕ
    pub queue : List (Sendq V)
    pub queued : view int_keys my.fd_to_sendq to_fd ≡ some queue
    pub waits : waits_for fd queue ≡ true

  -- A socket that is watched is read, or a queued item waits because of it.
  abbrev pub IsServed : SocketManager V S W → Type 0
  IsServed my = (fd : ℕ) → my.all_fds fd ≡ true → fd ≢ 0 → (my.recv_fds fd ≡ true) ⊎ IsAwaited my fd

  pub is_awaited-IsAwaited :
      (my : SocketManager V S W) (fd : ℕ)
      → IsValid int_keys my.fd_to_sendq
      → is_awaited my fd ≡ true
      → IsAwaited my fd
  unfolding is_awaited
  is_awaited-IsAwaited my fd valid h = elim (Bool-cases (size my.fd_to_sendq == 0)) [
    | inl y ↦ absurd (cc (rw y at h))
    | inr n ↦
        let (k, q, queued, waits) =
          values-any (waits_for fd) int_keys int_keys-IsLawful my.fd_to_sendq valid (rw n at h) in
        record { to_fd = k; queue = q; queued = queued; waits = waits }
  ]

  pub awaited :
      (my : SocketManager V S W) (r fd : ℕ) (q : Option (List (Sendq V)))
      → view int_keys my.fd_to_sendq fd ≡ q
      → waits_for r (items q) ≡ true
      → IsAwaited my r
  awaited my r fd none queued h = absurd (cc h)
  awaited my r fd (some q) queued h = record { to_fd = fd; queue = q; queued = queued; waits = h }

  -- A queue exchanged for one with every item that it had.
  pub requeued-IsServed :
      (my my' : SocketManager V S W) (fd : ℕ) (q : Option (List (Sendq V)))
      → IsUpdate int_keys my.fd_to_sendq fd q my'.fd_to_sendq
      → ((r : ℕ)
          → waits_for r (items (view int_keys my.fd_to_sendq fd)) ≡ true
          → waits_for r (items q) ≡ true)
      → my'.all_fds ≡ my.all_fds
      → my'.recv_fds ≡ my.recv_fds
      → IsServed my
      → IsServed my'
  requeued-IsServed my my' fd q up more all_same recv_same h r watched nonzero =
      elim (h r (rw all_same at watched) nonzero) [
        | inl y ↦ inl (rw recv_same y)
        | inr a ↦ inr (elim (ℕ_discrete fd a.to_fd) [
          | no ne ↦ record {
            to_fd = a.to_fd;
            queue = a.queue;
            queued = up.elsewhere a.to_fd ne ∙ a.queued;
            waits = a.waits;
          }
          | yes same ↦
              let before : waits_for r (items (view int_keys my.fd_to_sendq fd)) ≡ true =
                rw (same, a.queued) a.waits in
              awaited my' r fd q up.here (more r before)
        ])
      ]

  not_read :
      (my : SocketManager V S W) (r : ℕ)
      → r ≢ 0
      → my.all_fds r ≡ true
      → (not (r == 0) && my.all_fds r && not (is_awaited my r)) ≡ false
      → is_awaited my r ≡ true
  not_read my r nonzero watched n = elim (Bool-cases (is_awaited my r)) [
    | inl y ↦ y
    | inr z ↦ absurd (ground (arith, nonzero, watched, n, z))
  ]

  -- The socket that is being read is paused for an item that waits because of it.
  pub pause-IsServed :
      (my : SocketManager V S W) → IsAwaited my my.curr_recv_fd → IsServed my → IsServed (pause my)
  unfolding pause
  pause-IsServed my a h =
      let fd = my.curr_recv_fd in
      elim (Bool-cases (not (fd == 0) && my.recv_fds fd)) [
        | inr n ↦ rw n h
        | inl y ↦ rw y (λ r watched nonzero. elim (ℕ_discrete fd r) [
          | yes same ↦ inr (awaited _ r a.to_fd (some a.queue) a.queued (rw (← same) a.waits))
          | no ne ↦ elim (h r watched nonzero) [
            | inl z ↦ inl (ground (arith, ne, z))
            | inr b ↦ inr (awaited _ r b.to_fd (some b.queue) b.queued b.waits)
          ]
        ])
      ]

  module _ (my my' : SocketManager V S W) (fd : ℕ) (q : Sendq V) (next : List (Sendq V))
      (rest : Option (List (Sendq V))) (queued : view int_keys my.fd_to_sendq fd ≡ some (q ∷ next))
      (left : items rest ≡ next)
      (up : IsUpdate int_keys my.fd_to_sendq fd rest my'.fd_to_sendq) where
    -- Who waited still waits, but the socket that the item waited for.
    dequeued-IsAwaited : (r : ℕ) → IsAwaited my r → IsAwaited my' r ⊎ (q.recv_fd ≡ r)
    dequeued-IsAwaited r a = elim (ℕ_discrete fd a.to_fd) [
      | no ne ↦
          inl (awaited my' r a.to_fd (some a.queue) (up.elsewhere a.to_fd ne ∙ a.queued) a.waits)
      | yes same ↦
          let whole : some (q ∷ next) ≡ some a.queue =
            sym queued ∙ ap (view int_keys my.fd_to_sendq) same ∙ a.queued in
          let same_queue : q ∷ next ≡ a.queue = cc whole in
          let waits : waits_for r (q ∷ next) ≡ true =
            subst (λ z. waits_for r z ≡ true) (sym same_queue) a.waits in
          elim (Bool-cases (q.recv_fd == r)) [
            | inl y ↦ inr (ground (arith, y))
            | inr n ↦
                let behind : waits_for r next ≡ true = ground (arith, waits, n) in
                inl (awaited my' r fd rest up.here (rw left behind))
          ]
    ]

    -- The first item leaves the queue, and the socket that it waits for is read again, unless
    -- another item waits because of it.
    pub reenable-IsServed :
        my'.all_fds ≡ my.all_fds
        → my'.recv_fds ≡ my.recv_fds
        → IsServed my
        → IsServed (reenable my' q.recv_fd)
    unfolding reenable
    reenable-IsServed all_same recv_same h =
        let c = q.recv_fd in
        let before : (r : ℕ)
            → my'.all_fds r ≡ true
            → r ≢ 0
            → (my'.recv_fds r ≡ true) ⊎ (IsAwaited my' r ⊎ (q.recv_fd ≡ r)) =
          λ r watched nonzero. elim (h r (rw all_same at watched) nonzero) [
            | inl y ↦ inl (rw recv_same y)
            | inr a ↦ inr (dequeued-IsAwaited r a)
          ] in
        elim (Bool-cases (not (c == 0) && my'.all_fds c && not (is_awaited my' c))) [
          | inl y ↦ rw y (λ r watched nonzero. elim (before r watched nonzero) [
            | inl z ↦ inl (ground (arith, z))
            | inr (inl a) ↦ inr (awaited _ r a.to_fd (some a.queue) a.queued a.waits)
            | inr (inr same) ↦ inl (ground (arith, same))
          ])
          | inr n ↦ rw n (λ r watched nonzero. elim (before r watched nonzero) [
            | inl z ↦ inl z
            | inr (inl a) ↦ inr a
            | inr (inr same) ↦ inr (
                is_awaited-IsAwaited my' r up.valid (
                  not_read my' r nonzero watched (
                    subst
                      (λ (x : ℕ). (not (x == 0) && my'.all_fds x && not (is_awaited my' x)) ≡ false)
                      same n)))
          ])
        ]
