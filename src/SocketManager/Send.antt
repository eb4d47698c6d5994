-- ===== src/SocketManager/Send.antt =====
-- src/socket_manager.c: `sm_send` and `sm_resend`.
--
-- `none` is a loop that runs out of fuel. A change of an item of a queue goes through the pointers of
-- the list, and is written as `ht_put` of the changed list, which replaces a value in place.
pub mod Stream
pub mod Served
use ios_webkit_debug_proxy.Prelude.{
  ℕ, zero, suc, ◌+◌, ◌-◌, Bool, true, false, not, ◌&&◌, ◌||◌, Option, some, none, List, [], ◌∷◌,
  ◌++◌, length, drop, leb, ltb, ◌==◌, if◌then◌else◌, ◌>>=◌, any,
}
use ios_webkit_debug_proxy.Prelude.Status.{Status, success, error}
use ios_webkit_debug_proxy.HashTable.{HashTable, put, get_value, values, size}
use ios_webkit_debug_proxy.HashTable.Keys.{int_keys}
use ios_webkit_debug_proxy.SocketManager.{
  SocketManager, Sendq, fd_set, fd_clr, Closing, OnClose, remove_fd,
}

-- What `send` and `SSL_write` answer: a count; that nothing can be written now, by `EWOULDBLOCK` or
-- the two errors of OpenSSL that mean this; or another error.
pub data Sent : Type 0 where
  count : ℕ → Sent
  again failed : Sent

-- `send` and `SSL_write`
pub record Output (S W : Type 0) : Type 0 where
  pub send : W → ℕ → List ℕ → Sent × W
  pub ssl_write : W → S → ℕ → List ℕ → Sent × W

-- `on_sent` of `struct sm_struct`, whose status is not looked at
abbrev pub OnSent : Type 0 → Type 0 → Type 0 → Type 0
OnSent V S W = SocketManager V S W → ℕ → Option V → List ℕ → SocketManager V S W

-- How the loop over the bytes ends: all are sent, some are left, or there is an error.
pub data Pushed : Type 0 where
  all : Pushed
  left : List ℕ → Pushed
  broken : Pushed

module _ {S W : Type 0} (output : Output S W) where
  -- A count of 0 from `send` is taken as nothing to be written now.
  abbrev pub write : W → Option S → ℕ → List ℕ → Sent × W
  write w (some ssl) fd data_left = output.ssl_write w ssl fd data_left
  write w none fd data_left =
      let (r, w') = output.send w fd data_left in
      (elim r [ count n ↦ if n == 0 then again else count n | again ↦ again | failed ↦ failed ], w')

  -- The loop of `sm_send`, with the bytes from `head` on.
  unfoldable pub push : ℕ → W → Option S → ℕ → List ℕ → Option (Pushed × W)
  push zero w ssl fd data_left = none
  push (suc f) w ssl fd data_left =
      let (r, w') = write w ssl fd data_left in
      elim r [
        | failed ↦ some (broken, w')
        | again ↦ some (left data_left, w')
        | count n ↦
            let further = push f w' ssl fd (drop n data_left) in
            if leb (length data_left) n then some (all, w') else further
      ]

  -- The loop of `sm_resend`, which tests for the end first.
  unfoldable pub push_rest : W → Option S → ℕ → List ℕ → Option (Pushed × W)
  unfolding push
  push_rest w ssl fd [] = some (all, w)
  push_rest w ssl fd (c ∷ cs) = push (suc (length (c ∷ cs))) w ssl fd (c ∷ cs)

-- The items from a pointer on.
abbrev pub items : {V : Type 0} → Option (List (Sendq V)) → List (Sendq V)
items none = []
items (some q) = q

-- The bytes of an item that are not sent.
abbrev pub rest_of : {V : Type 0} → Sendq V → List ℕ
rest_of q = drop q.head q.begin

module _ {V S W : Type 0} where
  abbrev pub with_queue : SocketManager V S W → ℕ → Option (List (Sendq V)) → SocketManager V S W
  with_queue my fd q = record my { fd_to_sendq = (put int_keys my.fd_to_sendq fd q).1 }

  abbrev pub with_world : SocketManager V S W → W → SocketManager V S W
  with_world my w = record my { world = w }

  -- The socket that is being read is not read on while the new item waits.
  unfoldable pub pause : SocketManager V S W → SocketManager V S W
  pause my =
      let fd = my.curr_recv_fd in
      if not (fd == 0) && my.recv_fds fd
      then record my { recv_fds = fd_clr my.recv_fds fd; tmp_recv_fds = fd_clr my.tmp_recv_fds fd }
      else my

  -- The end of `sm_send`: a new item at the end of the queue, or a new queue.
  unfoldable pub enqueue :
      SocketManager V S W → ℕ → Option (List (Sendq V)) → Option V → List ℕ → SocketManager V S W
  unfolding pause
  enqueue my fd sendq value bytes_left =
      let newq : Sendq V = record {
        value = value;
        recv_fd = my.curr_recv_fd;
        begin = bytes_left;
        head = 0;
      } in
      elim sendq [
        | some items ↦ pause (with_queue my fd (some (items ++ (newq ∷ []))))
        | none ↦
            let my' = with_queue my fd (some (newq ∷ [])) in
            pause (record my' { send_fds = fd_set my'.send_fds fd })
      ]

  -- The items that wait for a socket.
  unfoldable pub queue_of : SocketManager V S W → ℕ → List (Sendq V)
  queue_of my fd = items (get_value int_keys my.fd_to_sendq fd).0

  -- Whether an item of any queue waits because of `recv_fd`.
  unfoldable pub is_awaited : SocketManager V S W → ℕ → Bool
  unfolding size values
  is_awaited my recv_fd =
      if size my.fd_to_sendq == 0
      then false
      else any (λ (q : List (Sendq V)). any (λ (item : Sendq V). item.recv_fd == recv_fd) q)
          (values my.fd_to_sendq)

  -- The socket is read again, unless another item waits because of it.
  unfoldable pub reenable : SocketManager V S W → ℕ → SocketManager V S W
  unfolding is_awaited
  reenable my recv_fd =
      if not (recv_fd == 0) && my.all_fds recv_fd && not (is_awaited my recv_fd)
      then record my { recv_fds = fd_set my.recv_fds recv_fd }
      else my

  -- The item that is sent leaves the queue.
  unfoldable pub dequeue : SocketManager V S W → ℕ → List (Sendq V) → SocketManager V S W
  dequeue my fd [] =
      let my' = with_queue my fd none in record my' { send_fds = fd_clr my'.send_fds fd }
  dequeue my fd (q ∷ qs) = with_queue my fd (some (q ∷ qs))

module _ {V S W : Type 0} (output : Output S W) (on_sent : OnSent V S W) where
  unfoldable pub send :
      SocketManager V S W → ℕ → List ℕ → Option V → Option (Status × SocketManager V S W)
  unfolding push enqueue
  send my fd bytes value =
      let (sendq, queues) = get_value int_keys my.fd_to_sendq fd in
      let my₁ = record my { fd_to_sendq = queues } in
      elim sendq [
        | some items ↦ some (success, enqueue my₁ fd (some items) value bytes)
        | none ↦
            let (ssl, ssls) = get_value int_keys my₁.fd_to_ssl fd in
            let my₂ = record my₁ { fd_to_ssl = ssls } in
            elim (push output (suc (length bytes)) my₂.world ssl fd bytes) [
              | none ↦ none
              | some (broken, w) ↦ some (error, with_world my₂ w)
              | some (all, w) ↦ some (success, on_sent (with_world my₂ w) fd value bytes)
              | some (left bytes_left, w) ↦
                  some (success, enqueue (with_world my₂ w) fd none value bytes_left)
            ]
      ]

  module _ (closing : Closing S W) (on_close : OnClose V S W) where
    -- An item that has been sent: `on_sent`, the next item, and the socket that it made wait. A
    -- callback that empties the queue frees the item under the loop; this is `none`.
    unfoldable pub finish : SocketManager V S W → ℕ → Sendq V → Option (SocketManager V S W)
    unfolding queue_of dequeue reenable
    finish my fd q =
        let my' = on_sent my fd q.value q.begin in
        elim (queue_of my' fd) [
          | [] ↦ none
          | item ∷ next ↦ some (reenable (dequeue my' fd next) item.recv_fd)
        ]

    -- The loop over the queue; `ssl` is the session that `fd_to_ssl` has at the start.
    unfoldable pub resend_loop :
        ℕ → SocketManager V S W → Option S → ℕ → Option (SocketManager V S W)
    unfolding push_rest finish queue_of remove_fd
    resend_loop zero my ssl fd = none
    resend_loop (suc f) my ssl fd = elim (queue_of my fd) [
      | [] ↦ some my
      | q ∷ rest ↦ elim (push_rest output my.world ssl fd (rest_of q)) [
        | none ↦ none
        | some (broken, w) ↦ some (remove_fd closing on_close (with_world my w) fd).1
        | some (left bytes, w) ↦
            let q' = record q { head = length q.begin - length bytes } in
            some (with_queue (with_world my w) fd (some (q' ∷ rest)))
        | some (all, w) ↦
            let q' = record q { head = length q.begin } in
            do
              my' ← finish (with_queue (with_world my w) fd (some (q' ∷ rest))) fd q'
              resend_loop f my' ssl fd
      ]
    ]

    unfoldable pub resend : ℕ → SocketManager V S W → ℕ → Option (SocketManager V S W)
    unfolding resend_loop
    resend f my fd =
        let (sendq, queues) = get_value int_keys my.fd_to_sendq fd in
        let (ssl, ssls) = get_value int_keys my.fd_to_ssl fd in
        resend_loop f (record my { fd_to_sendq = queues; fd_to_ssl = ssls }) ssl fd
