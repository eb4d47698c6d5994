-- ===== src/SocketManager/Watched.antt =====
-- src/socket_manager.c: `max_fd`, as `sm_add_fd` and `sm_remove_fd` keep it.
use ios_webkit_debug_proxy.Prelude.{
  ℕ, zero, suc, ◌<◌, ◌≤◌, ◌≡◌, ◌≢◌, ◌⊎◌, refl, ap, inl, inr, Bool, true, Bool-cases, Option, some,
  none, Option-cases, ltb, ◌==◌, arith, ℕ_discrete,
}
use ios_webkit_debug_proxy.HashTable.{put, size}
use ios_webkit_debug_proxy.HashTable.Keys.{int_keys}
use ios_webkit_debug_proxy.SocketManager.{
  SocketManager, FdSet, fd_set, fd_clr, watch, unwatch, lower, forget, free_ssl, closed, put_ssl,
  add_fd, remove_fd, Closing, OnClose,
}

-- `n` is the highest socket of the set and 1, or 0 for no socket.
pub record IsTop (fds : FdSet) (n : ℕ) : Type 0 where
  pub bounded : (fd : ℕ) → fds fd ≡ true → fd < n
  pub reached : (n ≡ 0) ⊎ ((fd : ℕ) × (n ≡ suc fd) × (fds fd ≡ true))

lower-IsTop : (fds : FdSet) (n : ℕ) → ((fd : ℕ) → fds fd ≡ true → fd < n) → IsTop fds (lower fds n)
unfolding lower
lower-IsTop fds zero h = record { bounded = h; reached = inl refl }
lower-IsTop fds (suc n) h = elim (Bool-cases (fds n)) [
  | inl y ↦ rw (y, lower) (record { bounded = h; reached = inr (n, refl, y) })
  | inr absent ↦
      rw (absent, lower)
        (lower-IsTop fds n (λ fd is_in. elim (ℕ_discrete fd n) [
          | yes same ↦ absurd (cc (is_in, absent, ap fds same))
          | no ne ↦ omega (arith, h fd is_in, ne)
        ]))
]

pub lower-le : (fds : FdSet) (n : ℕ) → lower fds n ≤ n
unfolding lower
lower-le fds zero = omega arith
lower-le fds (suc n) = elim (Bool-cases (fds n)) [
  | inl y ↦ rw (y, lower) (omega arith)
  | inr absent ↦ rw (absent, lower) (omega (arith, lower-le fds n))
]

pub fd_clr-true : (fds : FdSet) (fd x : ℕ) → fd_clr fds fd x ≡ true → (fds x ≡ true) × (x ≢ fd)
fd_clr-true fds fd x h = elim (Bool-cases (x == fd)) [
  | inl y ↦ absurd (cc (rw y at h))
  | inr n ↦ (rw n at h, ground (arith, n))
]

fd_clr-ne : (fds : FdSet) (fd x : ℕ) → x ≢ fd → fds x ≡ true → fd_clr fds fd x ≡ true
fd_clr-ne fds fd x ne h = ground (arith, ne, h)

fd_set-true : (fds : FdSet) (fd x : ℕ) → fd_set fds fd x ≡ true → (x ≡ fd) ⊎ (fds x ≡ true)
fd_set-true fds fd x h = elim (Bool-cases (x == fd)) [
  | inl y ↦ inl (ground (arith, y))
  | inr n ↦ inr (rw n at h)
]

fd_set-keeps : (fds : FdSet) (fd x : ℕ) → fds x ≡ true → fd_set fds fd x ≡ true
fd_set-keeps fds fd x h = ground (arith, h)

fd_set_self : (fds : FdSet) (fd : ℕ) → fd_set fds fd fd ≡ true
fd_set_self fds fd = ground arith

module _ {V S W : Type 0} where
  -- `max_fd` is the highest of the sockets that are watched, or -1.
  abbrev pub IsMax : SocketManager V S W → Type 0
  IsMax my = IsTop my.all_fds my.num_fds

  watch-IsMax :
      (my : SocketManager V S W) (fd : ℕ) (is_server : Bool)
      → IsMax my
      → IsMax (watch my fd is_server)
  unfolding watch
  watch-IsMax my fd is_server h = elim (Bool-cases (ltb fd my.num_fds)) [
    | inl y ↦ rw y (record {
      bounded = λ x is_in. elim (fd_set-true my.all_fds fd x is_in) [
        | inl same ↦ ground (arith, y, same)
        | inr before ↦ h.bounded x before
      ];
      reached = elim h.reached [
        | inl z ↦ inl z
        | inr (k, top, is_in) ↦ inr (k, top, fd_set-keeps my.all_fds fd k is_in)
      ];
    })
    | inr n ↦ rw n (record {
      bounded = λ x is_in. elim (fd_set-true my.all_fds fd x is_in) [
        | inl same ↦ omega (arith, same)
        | inr before ↦ ground (arith, n, h.bounded x before)
      ];
      reached = inr (fd, refl, fd_set_self my.all_fds fd);
    })
  ]

  unwatch-IsMax :
      (my : SocketManager V S W) (fd : ℕ) (is_server : Bool)
      → IsMax my
      → IsMax (unwatch my fd is_server)
  unfolding unwatch
  unwatch-IsMax my fd is_server h =
      let below : (x : ℕ) → fd_clr my.all_fds fd x ≡ true → x < my.num_fds =
        λ x is_in. h.bounded x (fd_clr-true my.all_fds fd x is_in).0 in
      elim (Bool-cases (suc fd == my.num_fds)) [
        | inl y ↦ rw y (lower-IsTop (fd_clr my.all_fds fd) my.num_fds below)
        | inr n ↦ rw n (record {
          bounded = below;
          reached = elim h.reached [
            | inl z ↦ inl z
            | inr (k, top, is_in) ↦
                inr (k, top, fd_clr-ne my.all_fds fd k (ground (arith, n, top)) is_in)
          ];
        })
      ]

  pub forget-fds :
      (my : SocketManager V S W) (fd : ℕ)
      → ((forget my fd).all_fds ≡ my.all_fds) × ((forget my fd).num_fds ≡ my.num_fds)
  unfolding forget
  forget-fds my fd = elim (Bool-cases (size my.fd_to_sendq == 0)) [
    | inl y ↦ rw y (refl, refl)
    | inr n ↦ rw n (refl, refl)
  ]

  add_fd-IsMax :
      (my : SocketManager V S W) (fd : ℕ) (ssl_session : Option S) (value : Option V)
      (is_server : Bool)
      → IsMax my
      → IsMax (add_fd my fd ssl_session value is_server).1
  unfolding add_fd
  add_fd-IsMax my fd ssl_session value is_server h = elim (Bool-cases (my.all_fds fd)) [
    | inl y ↦ rw (y, add_fd) h
    | inr n ↦
        let (old, values) = put int_keys my.fd_to_value fd value in
        let (old_ssl, ssls) = put_ssl my.fd_to_ssl fd ssl_session in
        elim (Option-cases (put int_keys my.fd_to_value fd value).0) [
          | inr (v, e) ↦ rw (n, e, add_fd) h
          | inl e ↦ elim (Option-cases (put_ssl my.fd_to_ssl fd ssl_session).0) [
            | inr (s, d) ↦ rw (n, e, d, add_fd) h
            | inl d ↦
                rw (n, e, d, add_fd)
                  (watch-IsMax (record my { fd_to_value = values; fd_to_ssl = ssls }) fd is_server
                    h)
          ]
        ]
  ]

  module _ (closing : Closing S W) (on_close : OnClose V S W) where
    free_ssl-fds :
        (my : SocketManager V S W) (s : Option S)
        → ((free_ssl closing my s).all_fds ≡ my.all_fds)
          × ((free_ssl closing my s).num_fds ≡ my.num_fds)
    free_ssl-fds my none = (refl, refl)
    free_ssl-fds my (some s) = (refl, refl)

    -- A socket that is watched is removed from the state that `on_close` leaves.
    pub record IsRemoved (my : SocketManager V S W) (fd : ℕ) (my' : SocketManager V S W)
        : Type 0 where
      pub before : SocketManager V S W
      pub value : Option V
      pub is_server : Bool
      pub before_fds : before.all_fds ≡ my.all_fds
      pub before_num : before.num_fds ≡ my.num_fds
      pub after :
          my'
          ≡ forget
              (unwatch (closed closing (on_close before fd value is_server).1 fd) fd is_server)
              fd

    pub remove_fd-IsRemoved :
        (my : SocketManager V S W) (fd : ℕ)
        → my.all_fds fd ≡ true
        → IsRemoved my fd (remove_fd closing on_close my fd).1
    unfolding remove_fd
    remove_fd-IsRemoved my fd watched =
        let (ssl_session, ssls) = put int_keys my.fd_to_ssl fd none in
        let my₁ = free_ssl closing (record my { fd_to_ssl = ssls }) ssl_session in
        let same = free_ssl-fds (record my { fd_to_ssl = ssls }) ssl_session in
        rw watched (record {
          before = record my₁ { fd_to_value = (put int_keys my₁.fd_to_value fd none).1 };
          value = (put int_keys my₁.fd_to_value fd none).0;
          is_server = my₁.server_fds fd;
          before_fds = same.0;
          before_num = same.1;
          after = refl;
        })

    pub remove_fd-IsMax :
        ((my : SocketManager V S W) (fd : ℕ) (value : Option V) (is_server : Bool)
          → IsMax my
          → IsMax (on_close my fd value is_server).1)
        → (my : SocketManager V S W) (fd : ℕ) → IsMax my
        → IsMax (remove_fd closing on_close my fd).1
    unfolding remove_fd
    remove_fd-IsMax kept my fd h = elim (Bool-cases (my.all_fds fd)) [
      | inr n ↦ rw (n, remove_fd) h
      | inl y ↦
          let r = remove_fd-IsRemoved my fd y in
          let closed_so =
            kept r.before fd r.value r.is_server (rw (r.before_fds, r.before_num) h) in
          let my₂ = closed closing (on_close r.before fd r.value r.is_server).1 fd in
          let same = forget-fds (unwatch my₂ fd r.is_server) fd in
          rw (r.after, same.0, same.1) (unwatch-IsMax my₂ fd r.is_server closed_so)
    ]

    -- If `on_close` keeps `max_fd` the highest of the sockets that are watched, so do `sm_add_fd` and
    -- `sm_remove_fd`, whether they succeed or not.
    pub add_fd-remove_fd-IsMax :
        ((my : SocketManager V S W) (fd : ℕ) (value : Option V) (is_server : Bool)
          → IsMax my
          → IsMax (on_close my fd value is_server).1)
        → (my : SocketManager V S W) (fd : ℕ) (ssl_session : Option S) (value : Option V)
          (is_server : Bool)
        → IsMax my
        → IsMax (add_fd my fd ssl_session value is_server).1
          × IsMax (remove_fd closing on_close my fd).1
    add_fd-remove_fd-IsMax kept my fd ssl_session value is_server h =
        (add_fd-IsMax my fd ssl_session value is_server h, remove_fd-IsMax kept my fd h)
