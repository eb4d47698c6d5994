-- ===== src/SocketManager/Receive.antt =====
-- src/socket_manager.c: `sm_accept`, `sm_recv`, `sm_select` and `sm_cleanup`.
--
-- `none` is a loop that runs out of fuel.
pub mod Cleanup
use ios_webkit_debug_proxy.Prelude.{
  ℕ, zero, suc, ◌-◌, Bool, true, false, not, ◌&&◌, ◌||◌, Option, some, none, List, [], ◌∷◌, ltb,
  ◌==◌, if◌then◌else◌, ◌>>=◌,
}
use ios_webkit_debug_proxy.Prelude.Status.{Status, success, error}
use ios_webkit_debug_proxy.HashTable.{get_value}
use ios_webkit_debug_proxy.HashTable.Keys.{int_keys}
use ios_webkit_debug_proxy.SocketManager.{
  SocketManager, FdSet, Closing, OnClose, add_fd, remove_fd, closed,
}
use ios_webkit_debug_proxy.SocketManager.Send.{Output, OnSent, resend}

-- What `recv` and `SSL_read` answer: bytes (none at the end of the stream, for `recv` only), nothing
-- yet, or an error.
pub data Received : Type 0 where
  bytes : List ℕ → Received
  again failed : Received

-- What `accept` answers.
pub data Accepted : Type 0 where
  new_fd : ℕ → Accepted
  again failed : Accepted

-- What `select` answers: the sets of the sockets that can be read, can be written and have failed,
-- with their number, an interruption, or an error.
pub data Selected : Type 0 where
  ready : ℕ → FdSet → FdSet → FdSet → Selected
  interrupted failed : Selected

-- `recv` with `RECV_FLAGS` and `SSL_read` for a number of bytes, `accept`, and `select` for a number
-- of sockets and the three sets.
pub record Input (S W : Type 0) : Type 0 where
  pub recv : W → ℕ → ℕ → Received × W
  pub ssl_read : W → S → ℕ → Received × W
  pub accept : W → ℕ → Accepted × W
  pub select : W → ℕ → FdSet → FdSet → FdSet → ℕ → Selected × W

-- The callbacks of `struct sm_struct`.
pub record Callbacks (V S W : Type 0) : Type 0 where
  pub on_accept : SocketManager V S W → ℕ → Option V → ℕ → (Status × Option V) × SocketManager V S W
  pub on_sent : OnSent V S W
  pub on_recv : SocketManager V S W → ℕ → Option V → List ℕ → Status × SocketManager V S W
  pub on_close : OnClose V S W

module _ {V S W : Type 0} (input : Input S W) (output : Output S W) (closing : Closing S W)
    (calls : Callbacks V S W) where
  abbrev drop_fd : SocketManager V S W → ℕ → SocketManager V S W
  drop_fd my fd = (remove_fd closing calls.on_close my fd).1

  -- A client that `accept` has given: it is refused by `on_accept`, watched, or given up.
  unfoldable pub admit : SocketManager V S W → ℕ → ℕ → SocketManager V S W
  unfolding add_fd
  admit my fd client =
      let (value, values) = get_value int_keys my.fd_to_value fd in
      let ((s, new_value), my₁) =
        calls.on_accept (record my { fd_to_value = values }) fd value client in
      elim s [
        | error ↦ closed closing my₁ client
        | success ↦
            let (added, my₂) = add_fd my₁ client none new_value false in
            elim added [
              | success ↦ my₂
              | error ↦
                  let (ret, my₃) = calls.on_close my₂ client new_value false in
                  closed closing my₃ client
            ]
      ]

  unfoldable pub accept : ℕ → SocketManager V S W → ℕ → Option (SocketManager V S W)
  unfolding admit remove_fd
  accept zero my fd = none
  accept (suc f) my fd =
      let (r, w) = input.accept my.world fd in
      let my' = record my { world = w } in
      elim r [
        | failed ↦ some (drop_fd my' fd)
        | again ↦ some my'
        | new_fd client ↦ accept f (admit my' fd client) fd
      ]

  -- The first part of the loop of `sm_recv`. From `SSL_read` no bytes are an error or nothing yet.
  abbrev pub read : SocketManager V S W → Option S → ℕ → Received × W
  read my none fd = input.recv my.world fd my.tmp_buf_length
  read my (some ssl) fd = input.ssl_read my.world ssl my.tmp_buf_length

  unfoldable pub recv_loop : ℕ → SocketManager V S W → Option S → ℕ → Option (SocketManager V S W)
  unfolding remove_fd
  recv_loop zero my ssl fd = none
  recv_loop (suc f) my ssl fd =
      let (r, w) = read my ssl fd in
      let my' = record my { world = w } in
      elim r [
        | failed ↦ some (drop_fd my' fd)
        | again ↦ some my'
        | bytes b ↦
            let (value, values) = get_value int_keys my'.fd_to_value fd in
            let my₁ = record my' { fd_to_value = values } in
            elim b [
              | [] ↦ some (drop_fd my₁ fd)
              | c ∷ cs ↦
                  let (s, my₂) = calls.on_recv my₁ fd value (c ∷ cs) in
                  let further = recv_loop f my₂ ssl fd in
                  elim s [ error ↦ some (drop_fd my₂ fd) | success ↦ further ]
            ]
      ]

  unfoldable pub recv : ℕ → SocketManager V S W → ℕ → Option (SocketManager V S W)
  unfolding recv_loop
  recv f my fd =
      let my₁ = record my { curr_recv_fd = fd } in
      let (ssl, ssls) = get_value int_keys my₁.fd_to_ssl fd in
      elim (recv_loop f (record my₁ { fd_to_ssl = ssls }) ssl fd) [
        | none ↦ none
        | some my₂ ↦ some (record my₂ { curr_recv_fd = 0 })
      ]

  -- What `sm_select` does for a socket that is ready.
  unfoldable pub serve : ℕ → SocketManager V S W → ℕ → Option (SocketManager V S W)
  unfolding accept recv resend remove_fd
  serve f my fd =
      let can_send = my.tmp_send_fds fd in
      let can_recv = my.tmp_recv_fds fd in
      if my.tmp_fail_fds fd
      then some (drop_fd my fd)
      else (if my.server_fds fd then accept f my fd else do
        my₁ ←
            if can_send then resend output calls.on_sent closing calls.on_close f my fd else some my
        if can_recv then recv f my₁ fd else some my₁)

  -- The loop over the sockets, from `fd` on, until `num_left` have been served.
  unfoldable pub scan : ℕ → SocketManager V S W → ℕ → ℕ → Option (SocketManager V S W)
  unfolding serve
  scan zero my fd num_left = none
  scan (suc f) my fd num_left =
      let skipped = scan f my (suc fd) num_left in
      if not (ltb fd my.num_fds) || num_left == 0
      then some my
      else (if not (my.tmp_send_fds fd || my.tmp_recv_fds fd || my.tmp_fail_fds fd)
          then skipped
          else do my' ← serve f my fd; scan f my' (suc fd) (num_left - 1))

  -- What `sm_select` returns: a number of sockets, or a negative number.
  unfoldable pub select : ℕ → SocketManager V S W → ℕ → Option ((Status × ℕ) × SocketManager V S W)
  unfolding scan
  select f my timeout_secs =
      if ltb my.num_fds 2
      then some ((error, 0), my)
      else (let my₁ = record my {
        timeout_secs = timeout_secs;
        tmp_send_fds = my.send_fds;
        tmp_recv_fds = my.recv_fds;
        tmp_fail_fds = my.all_fds;
      } in
          let (r, w) =
            input.select my₁.world my₁.num_fds my₁.tmp_recv_fds my₁.tmp_send_fds my₁.tmp_fail_fds
              timeout_secs in
          elim r [
            | failed ↦ some ((error, 0), record my₁ { world = w })
            | interrupted ↦ some ((success, 0), record my₁ { world = w })
            | ready num_ready can_recv can_send has_failed ↦
                let my₂ = record my₁ {
                  world = w;
                  tmp_send_fds = can_send;
                  tmp_recv_fds = can_recv;
                  tmp_fail_fds = has_failed;
                } in
                if num_ready == 0
                then some ((success, 0), my₂)
                else do my₃ ← scan f my₂ 0 num_ready; some ((success, num_ready), my₃)
          ])

  -- The loop of `sm_cleanup`, from `fd` on.
  unfoldable pub cleanup : ℕ → SocketManager V S W → ℕ → Option (SocketManager V S W)
  unfolding remove_fd
  cleanup zero my fd = none
  cleanup (suc f) my fd =
      let my' = if my.all_fds fd then drop_fd my fd else my in
      let further = cleanup f my' (suc fd) in if ltb fd my.num_fds then further else some my
