-- ===== src/SocketManager.antt =====
-- src/socket_manager.c: the state of `struct sm_private`, and which sockets it watches.
--
-- A file descriptor is a number below `FD_SETSIZE`, an `fd_set` a test, and a NULL pointer `none`.
-- The calls of the operating system and of OpenSSL are parameters that act on `world`, and those of
-- the callbacks may act on the whole state, since they get `self`. Allocations succeed, and what is
-- only printed is left out. The function pointers of `struct sm_struct` are those that `sm_new` sets.
pub mod Send
pub mod Receive
pub mod Watched
use ios_webkit_debug_proxy.Prelude.{
  ℕ, zero, suc, ◌+◌, Bool, true, false, not, Option, some, none, List, [], ◌∷◌, ltb, ◌==◌, map,
  if◌then◌else◌,
}
use ios_webkit_debug_proxy.Prelude.Status.{Status, success, error}
use ios_webkit_debug_proxy.HashTable as Table
use ios_webkit_debug_proxy.HashTable.{HashTable, Entry, put, size, revalue}
use ios_webkit_debug_proxy.HashTable.Keys.{int_keys}

abbrev pub FdSet : Type 0
FdSet = ℕ → Bool

-- `FD_SET` and `FD_CLR`
abbrev pub fd_set : FdSet → ℕ → FdSet
fd_set fds fd x = if x == fd then true else fds x

abbrev pub fd_clr : FdSet → ℕ → FdSet
fd_clr fds fd x = if x == fd then false else fds x

-- `struct sm_sendq`, without its link: `head` is the offset from `begin`, and `tail` is the end of
-- the block.
pub record Sendq (V : Type 0) : Type 0 where
  pub value : Option V
  pub recv_fd : ℕ
  pub begin : List ℕ
  pub head : ℕ

-- `struct sm_private`. `num_fds` is `max_fd + 1`, and a queue is the list from its first item on.
pub record SocketManager (V S W : Type 0) : Type 0 where
  pub timeout_secs : ℕ
  pub all_fds : FdSet
  pub num_fds : ℕ
  pub server_fds : FdSet
  pub send_fds : FdSet
  pub recv_fds : FdSet
  pub fd_to_ssl : HashTable ℕ S
  pub fd_to_value : HashTable ℕ V
  pub fd_to_sendq : HashTable ℕ (List (Sendq V))
  pub tmp_buf_length : ℕ
  pub tmp_send_fds : FdSet
  pub tmp_recv_fds : FdSet
  pub tmp_fail_fds : FdSet
  pub curr_recv_fd : ℕ
  pub world : W

abbrev pub no_fds : FdSet
no_fds fd = false

-- `ht_put` of an SSL session, which is done only if there is one.
abbrev pub put_ssl : {S : Type 0} → HashTable ℕ S → ℕ → Option S → Option S × HashTable ℕ S
put_ssl t fd none = (none, t)
put_ssl t fd (some s) = put int_keys t fd (some s)

-- The highest socket that is still watched.
unfoldable pub lower : FdSet → ℕ → ℕ
lower fds zero = zero
lower fds (suc n) = let rest = lower fds n in if fds n then suc n else rest

-- The queued items that a socket caused forget it.
abbrev pub forget_item : {V : Type 0} → ℕ → Sendq V → Sendq V
forget_item fd q = if q.recv_fd == fd then record q { recv_fd = 0 } else q

abbrev pub forget_entry : {V : Type 0} → ℕ → Entry ℕ (List (Sendq V)) → Entry ℕ (List (Sendq V))
forget_entry fd e = revalue e (map (forget_item fd) e.value)

module _ {V S W : Type 0} where
  -- `sm_private_new`
  unfoldable pub new : ℕ → W → SocketManager V S W
  new buf_length world = record {
    timeout_secs = 5;
    all_fds = no_fds;
    num_fds = 0;
    server_fds = no_fds;
    send_fds = no_fds;
    recv_fds = no_fds;
    fd_to_ssl = Table.new;
    fd_to_value = Table.new;
    fd_to_sendq = Table.new;
    tmp_buf_length = buf_length;
    tmp_send_fds = no_fds;
    tmp_recv_fds = no_fds;
    tmp_fail_fds = no_fds;
    curr_recv_fd = 0;
    world = world;
  }

  -- The sets of a socket that is watched from now on.
  unfoldable pub watch : SocketManager V S W → ℕ → Bool → SocketManager V S W
  watch my fd is_server = record my {
    all_fds = fd_set my.all_fds fd;
    send_fds = fd_clr my.send_fds fd;
    recv_fds = fd_set my.recv_fds fd;
    tmp_send_fds = fd_clr my.tmp_send_fds fd;
    tmp_recv_fds = fd_clr my.tmp_recv_fds fd;
    tmp_fail_fds = fd_clr my.tmp_fail_fds fd;
    server_fds = if is_server then fd_set my.server_fds fd else my.server_fds;
    num_fds = if ltb fd my.num_fds then my.num_fds else suc fd;
  }

  unfoldable pub add_fd :
      SocketManager V S W → ℕ → Option S → Option V → Bool → Status × SocketManager V S W
  unfolding watch
  add_fd my fd ssl_session value is_server =
      if my.all_fds fd
      then (error, my)
      else (let (old, values) = put int_keys my.fd_to_value fd value in
          let my₁ = record my { fd_to_value = values } in
          elim old [
            | some v ↦ (error, my₁)
            | none ↦
                let (old_ssl, ssls) = put_ssl my.fd_to_ssl fd ssl_session in
                let my₂ = record my₁ { fd_to_ssl = ssls } in
                elim old_ssl [ some s ↦ (error, my₂) | none ↦ (success, watch my₂ fd is_server) ]
          ])

  -- The sets of a socket that is not watched any more.
  unfoldable pub unwatch : SocketManager V S W → ℕ → Bool → SocketManager V S W
  unfolding lower
  unwatch my fd is_server =
      let all = fd_clr my.all_fds fd in
      record my {
        all_fds = all;
        server_fds = if is_server then fd_clr my.server_fds fd else my.server_fds;
        send_fds = fd_clr my.send_fds fd;
        recv_fds = fd_clr my.recv_fds fd;
        tmp_send_fds = fd_clr my.tmp_send_fds fd;
        tmp_recv_fds = fd_clr my.tmp_recv_fds fd;
        tmp_fail_fds = fd_clr my.tmp_fail_fds fd;
        num_fds = if suc fd == my.num_fds then lower all my.num_fds else my.num_fds;
      }

  unfoldable pub forget : SocketManager V S W → ℕ → SocketManager V S W
  unfolding size
  forget my fd =
      let t = my.fd_to_sendq in
      if size t == 0
      then my
      else record my { fd_to_sendq = record t { buckets = map (map (forget_entry fd)) t.buckets } }

-- `close`, and `SSL_shutdown` with `SSL_free`.
pub record Closing (S W : Type 0) : Type 0 where
  pub close : W → ℕ → W
  pub ssl_free : W → S → W

-- `on_close` of `struct sm_struct`
abbrev pub OnClose : Type 0 → Type 0 → Type 0 → Type 0
OnClose V S W = SocketManager V S W → ℕ → Option V → Bool → Status × SocketManager V S W

module _ {V S W : Type 0} (closing : Closing S W) where
  abbrev pub free_ssl : SocketManager V S W → Option S → SocketManager V S W
  free_ssl my none = my
  free_ssl my (some s) = record my { world = closing.ssl_free my.world s }

  abbrev pub closed : SocketManager V S W → ℕ → SocketManager V S W
  closed my fd = record my { world = closing.close my.world fd }

module _ {V S W : Type 0} (closing : Closing S W) (on_close : OnClose V S W) where
  unfoldable pub remove_fd : SocketManager V S W → ℕ → Status × SocketManager V S W
  unfolding unwatch forget
  remove_fd my fd =
      if not (my.all_fds fd)
      then (error, my)
      else (let (ssl_session, ssls) = put int_keys my.fd_to_ssl fd none in
          let my₁ = free_ssl closing (record my { fd_to_ssl = ssls }) ssl_session in
          let (value, values) = put int_keys my₁.fd_to_value fd none in
          let is_server = my₁.server_fds fd in
          let (ret, my₂) = on_close (record my₁ { fd_to_value = values }) fd value is_server in
          (ret, forget (unwatch (closed closing my₂ fd) fd is_server) fd))
