-- ===== src/SocketManager/Receive/Cleanup.antt =====
-- src/socket_manager.c: `sm_cleanup` closes every socket.
use ios_webkit_debug_proxy.Prelude.{
  ℕ, zero, suc, ◌-◌, ◌<◌, ◌≤◌, ◌≡◌, ◌≢◌, refl, ap, ◌∙◌, inl, inr, Bool, true, false, Bool-cases,
  Option, some, ltb, arith, if◌then◌else◌,
}
use ios_webkit_debug_proxy.SocketManager.{
  SocketManager, Closing, OnClose, closed, remove_fd, unwatch,
}
use ios_webkit_debug_proxy.SocketManager.Watched.{
  IsMax, fd_clr-true, forget-fds, remove_fd-IsRemoved, remove_fd-IsMax,
}
use ios_webkit_debug_proxy.SocketManager.Send.{Output}
use ios_webkit_debug_proxy.SocketManager.Receive.{Input, Callbacks, cleanup}

-- A callback that adds no socket, and keeps `max_fd` right.
pub record AddsNone {V S W : Type 0} (on_close : OnClose V S W) : Type 0 where
  pub max :
      (my : SocketManager V S W) (fd : ℕ) (value : Option V) (is_server : Bool)
      → IsMax my
      → IsMax (on_close my fd value is_server).1
  pub subset :
      (my : SocketManager V S W) (fd : ℕ) (value : Option V) (is_server : Bool) (x : ℕ)
      → (on_close my fd value is_server).1.all_fds x ≡ true
      → my.all_fds x ≡ true

module _ {V S W : Type 0} where
  unwatch-clears :
      (my : SocketManager V S W) (fd : ℕ) (is_server : Bool) (x : ℕ)
      → (unwatch my fd is_server).all_fds x ≡ true
      → (my.all_fds x ≡ true) × (x ≢ fd)
  unfolding unwatch
  unwatch-clears my fd is_server x h = fd_clr-true my.all_fds fd x h

  -- A smaller set has no higher top.
  IsMax-le :
      (my my' : SocketManager V S W)
      → IsMax my
      → IsMax my'
      → ((x : ℕ) → my'.all_fds x ≡ true → my.all_fds x ≡ true)
      → my'.num_fds ≤ my.num_fds
  IsMax-le my my' h h' sub = elim h'.reached [
    | inl z ↦ omega (arith, z)
    | inr (k, top, is_in) ↦ omega (arith, top, h.bounded k (sub k is_in))
  ]

  module _ (closing : Closing S W) (on_close : OnClose V S W) (adds : AddsNone on_close) where
    remove_fd-clears :
        (my : SocketManager V S W) (fd x : ℕ)
        → my.all_fds fd ≡ true
        → (remove_fd closing on_close my fd).1.all_fds x ≡ true
        → (my.all_fds x ≡ true) × (x ≢ fd)
    remove_fd-clears my fd x watched h =
        let r = remove_fd-IsRemoved closing on_close my fd watched in
        let my₂ = closed closing (on_close r.before fd r.value r.is_server).1 fd in
        let same = forget-fds (unwatch my₂ fd r.is_server) fd in
        let (is_in, ne) = unwatch-clears my₂ fd r.is_server x (rw (r.after, same.0) at h) in
        (rw r.before_fds at (adds.subset r.before fd r.value r.is_server x is_in), ne)

    remove_fd-le :
        (my : SocketManager V S W) (fd : ℕ)
        → my.all_fds fd ≡ true
        → IsMax my
        → (remove_fd closing on_close my fd).1.num_fds ≤ my.num_fds
    remove_fd-le my fd watched h =
        IsMax-le my (remove_fd closing on_close my fd).1 h
          (remove_fd-IsMax closing on_close adds.max my fd h)
          (λ x is_in. (remove_fd-clears my fd x watched is_in).0)

module _ {V S W : Type 0} (input : Input S W) (output : Output S W) (closing : Closing S W)
    (calls : Callbacks V S W) (adds : AddsNone calls.on_close) where
  -- Nothing is watched.
  abbrev IsIdle : SocketManager V S W → Type 0
  IsIdle my = (my.num_fds ≡ 0) × ((x : ℕ) → my.all_fds x ≡ false)

  cleanup-removes :
      (f : ℕ) (my : SocketManager V S W) (fd : ℕ)
      → ltb fd my.num_fds ≡ true
      → my.all_fds fd ≡ true
      → cleanup input output closing calls (suc f) my fd
        ≡ cleanup input output closing calls f (remove_fd closing calls.on_close my fd).1 (suc fd)
  unfolding cleanup
  cleanup-removes f my fd more watched =
      let gone = (remove_fd closing calls.on_close my fd).1 in
      let next = λ (my' : SocketManager V S W). cleanup input output closing calls f my' (suc fd) in
      ap (λ b. if b then next (if my.all_fds fd then gone else my) else some my) more
      ∙ ap (λ b. next (if b then gone else my)) watched

  cleanup-skips :
      (f : ℕ) (my : SocketManager V S W) (fd : ℕ)
      → ltb fd my.num_fds ≡ true
      → my.all_fds fd ≡ false
      → cleanup input output closing calls (suc f) my fd
        ≡ cleanup input output closing calls f my (suc fd)
  unfolding cleanup
  cleanup-skips f my fd more absent = rw (more, absent, cleanup) refl

  cleanup-stops :
      (f : ℕ) (my : SocketManager V S W) (fd : ℕ)
      → ltb fd my.num_fds ≡ false
      → cleanup input output closing calls (suc f) my fd ≡ some my
  unfolding cleanup
  cleanup-stops f my fd past = rw (past, cleanup) refl

  cleanup-IsIdle :
      (f : ℕ) (my : SocketManager V S W) (fd : ℕ)
      → IsMax my
      → ((x : ℕ) → my.all_fds x ≡ true → fd ≤ x)
      → my.num_fds - fd < f
      → (my' : SocketManager V S W) × (cleanup input output closing calls f my fd ≡ some my')
        × IsIdle my'
  cleanup-IsIdle zero my fd h above enough = absurd (omega (arith, enough))
  cleanup-IsIdle (suc f) my fd h above enough = elim (Bool-cases (ltb fd my.num_fds)) [
    | inr past ↦ (
      my,
      cleanup-stops f my fd past,
      (
        elim h.reached [
          | inl z ↦ z
          | inr (k, top, is_in) ↦ absurd (ground (arith, past, top, above k is_in))
        ],
        λ x. elim (Bool-cases (my.all_fds x)) [
          | inr n ↦ n
          | inl y ↦ absurd (ground (arith, past, above x y, h.bounded x y))
        ],
      ),
    )
    | inl more ↦ elim (Bool-cases (my.all_fds fd)) [
      | inl y ↦
          let my' = (remove_fd closing calls.on_close my fd).1 in
          let above' : (x : ℕ) → my'.all_fds x ≡ true → suc fd ≤ x = λ x is_in.
            let (before, ne) = remove_fd-clears closing calls.on_close adds my fd x y is_in in
            omega (arith, above x before, ne) in
          let (my'', ran, idle) =
            cleanup-IsIdle f my' (suc fd) (remove_fd-IsMax closing calls.on_close adds.max my fd h)
              above'
              (ground (arith, enough, more, remove_fd-le closing calls.on_close adds my fd y h)) in
          (my'', cleanup-removes f my fd more y ∙ ran, idle)
      | inr n ↦
          let above' : (x : ℕ) → my.all_fds x ≡ true → suc fd ≤ x = λ x is_in.
            let ne : x ≢ fd = λ e. absurd (cc (is_in, n, ap my.all_fds e)) in
            omega (arith, above x is_in, ne) in
          let (my'', ran, idle) =
            cleanup-IsIdle f my (suc fd) h above' (ground (arith, enough, more)) in
          (my'', cleanup-skips f my fd more n ∙ ran, idle)
    ]
  ]

  -- If `on_close` adds no socket and keeps `max_fd` the highest of those that are watched, and it is
  -- this at the start: on fuel above `max_fd + 1`, `sm_cleanup` returns, and no socket is watched.
  pub cleanup_lem :
      (f : ℕ) (my : SocketManager V S W)
      → IsMax my
      → my.num_fds < f
      → (my' : SocketManager V S W) × (cleanup input output closing calls f my 0 ≡ some my')
        × (my'.num_fds ≡ 0)
        × ((x : ℕ) → my'.all_fds x ≡ false)
  cleanup_lem f my h enough =
      let (my', ran, idle) =
        cleanup-IsIdle f my 0 h (λ x is_in. omega arith) (omega (arith, enough)) in
      (my', ran, idle.0, idle.1)
