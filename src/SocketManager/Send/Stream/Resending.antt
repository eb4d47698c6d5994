-- ===== src/SocketManager/Send/Stream/Resending.antt =====
-- src/socket_manager.c: `sm_resend` moves bytes from a queue to the wire.
use ios_webkit_debug_proxy.Prelude.{
  ℕ, zero, suc, ◌+◌, ◌-◌, ◌<◌, ◌≡◌, ◌≢◌, ◌⊎◌, refl, sym, ap, ◌∙◌, inl, inr, Option, some, List, [],
  ◌∷◌, ◌++◌, append_assoc, append-nil, length, drop, arith, ℕ_discrete,
}
use ios_webkit_debug_proxy.HashTable.{get_value}
use ios_webkit_debug_proxy.HashTable.Keys.{int_keys, int_keys-IsLawful}
use ios_webkit_debug_proxy.HashTable.Table.{IsValid, view}
use ios_webkit_debug_proxy.HashTable.Ops.{get_value_lem}
use ios_webkit_debug_proxy.SocketManager.{SocketManager, Sendq, Closing, OnClose, remove_fd}
use ios_webkit_debug_proxy.SocketManager.Send.{
  Pushed, all, left, broken, Output, OnSent, items, rest_of, queue_of, with_queue, with_world,
  push_rest, resend_loop, resend,
}
use ios_webkit_debug_proxy.SocketManager.Send.Stream.{
  OutputLaws, unsent, stream, get_value-stream, with_queue-IsUpdate, queue_of-view,
}
use ios_webkit_debug_proxy.SocketManager.Send.Stream.Push.{
  Fails, Waits, IsPush, push_rest_lem, drop-drop,
}
use ios_webkit_debug_proxy.SocketManager.Send.Stream.Finish.{
  List-cases, drop-length-drop, as_queue, items-as_queue, items-cons, IsUpdate_trans, IsFinished,
  finish_lem,
}
use ios_webkit_debug_proxy.SocketManager.Send.Stream.Growing.{IsQuiet, Grows, grown}

module _ {V S W : Type 0} (wire : W → ℕ → List ℕ) (on_sent : OnSent V S W)
    (quiet : IsQuiet wire on_sent) (output : Output S W) (laws : OutputLaws output wire)
    (closing : Closing S W) (on_close : OnClose V S W) where
  -- The socket is removed, after a call of the output that failed: it was given the bytes that come
  -- next on the socket's stream, and up to it every other stream is as it was.
  pub record IsRemoved (my : SocketManager V S W) (ssl : Option S) (fd : ℕ)
      (my' : SocketManager V S W) : Type 0 where
    pub before : SocketManager V S W
    pub removed : my' ≡ (remove_fd closing on_close before fd).1
    pub valid : IsValid int_keys before.fd_to_sendq
    pub tried : W
    pub bytes : List ℕ
    pub behind : List ℕ
    pub failing : Fails output tried ssl fd bytes before.world
    pub next : wire tried fd ++ (bytes ++ behind) ≡ stream wire my.world my.fd_to_sendq fd
    pub elsewhere :
        (other : ℕ)
        → fd ≢ other
        → stream wire before.world before.fd_to_sendq other
          ≡ stream wire my.world my.fd_to_sendq other

  -- Nothing waits for the socket, or the last call of the output was given what is left of the first
  -- item, and could take nothing.
  abbrev pub IsDone : Option S → ℕ → SocketManager V S W → Type 0
  IsDone ssl fd my' =
      (items (view int_keys my'.fd_to_sendq fd) ≡ [])
      ⊎ ((q : Sendq V) × (rest : List (Sendq V)) × (w : W) × (items
              (view int_keys my'.fd_to_sendq fd)
            ≡ q ∷ rest)
          × Waits output w ssl fd (rest_of q) my'.world)

  abbrev Ends : SocketManager V S W → Option S → ℕ → SocketManager V S W → Type 0
  Ends my ssl fd my' = IsRemoved my ssl fd my' ⊎ (Grows wire my my' fd [] × IsDone ssl fd my')

  Grows-refl :
      (my : SocketManager V S W) (fd : ℕ) → IsValid int_keys my.fd_to_sendq → Grows wire my my fd []
  Grows-refl my fd valid = record {
    valid = valid;
    here = sym (append-nil (stream wire my.world my.fd_to_sendq fd));
    elsewhere = λ other ne. refl;
  }

  Grows-trans :
      (a b c : SocketManager V S W) (fd : ℕ)
      → Grows wire a b fd []
      → Grows wire b c fd []
      → Grows wire a c fd []
  Grows-trans a b c fd x y = record {
    valid = y.valid;
    here = y.here ∙ append-nil (stream wire b.world b.fd_to_sendq fd) ∙ x.here;
    elsewhere = λ other ne. y.elsewhere other ne ∙ x.elsewhere other ne;
  }

  module _ (my : SocketManager V S W) (ssl : Option S) (fd : ℕ) (q : Sendq V)
      (rest : List (Sendq V)) (w : W) (valid : IsValid int_keys my.fd_to_sendq)
      (found : view int_keys my.fd_to_sendq fd ≡ some (q ∷ rest)) where
    -- The first item has been sent up to an offset.
    abbrev with_head : ℕ → SocketManager V S W
    with_head n = with_queue (with_world my w) fd (some (record q { head = n } ∷ rest))

    left-rest :
        (b : List ℕ)
        → IsPush output wire laws ssl my.world fd (rest_of q) (left b) w
        → drop (length q.begin - length b) q.begin ≡ b
    left-rest b ok =
        let (n, cut) = ok.suffix in
        rw (cut, drop-drop q.head n q.begin) (drop-length-drop (q.head + n) q.begin)

    left-IsDone :
        (b : List ℕ)
        → IsPush output wire laws ssl my.world fd (rest_of q) (left b) w
        → IsDone ssl fd (with_head (length q.begin - length b))
    left-IsDone b ok =
        let q' : Sendq V = record q { head = length q.begin - length b } in
        let (w₀, waiting) = ok.waits b refl in
        let up = with_queue-IsUpdate my fd (some (q' ∷ rest)) valid in
        inr (q', rest, w₀, ap items up.here, rw (left-rest b ok) waiting)

    left-Grows :
        (b : List ℕ)
        → IsPush output wire laws ssl my.world fd (rest_of q) (left b) w
        → Grows wire my (with_head (length q.begin - length b)) fd []
    unfolding unsent
    left-Grows b ok =
        let at = left-rest b ok in
        grown wire my (with_head (length q.begin - length b)) fd []
          (some (record q { head = length q.begin - length b } ∷ rest))
          (with_queue-IsUpdate my fd (some (record q { head = length q.begin - length b } ∷ rest))
            valid)
          (rw (at, found)
            (sym (append_assoc (wire w fd) b (unsent rest))
              ∙ ap (λ x. x ++ unsent rest) (ok.whole (λ e. absurd (cc e)))
              ∙ append_assoc (wire my.world fd) (rest_of q) (unsent rest)
              ∙ sym (append-nil (wire my.world fd ++ (rest_of q ++ unsent rest)))))
          ok.others

    all-Grows :
        (my' : SocketManager V S W)
        → IsPush output wire laws ssl my.world fd (rest_of q) all w
        → IsFinished wire on_sent quiet (with_head (length q.begin)) fd rest my'
        → Grows wire my my' fd []
    unfolding unsent
    all-Grows my' ok finished =
        let head : ℕ = length q.begin in
        grown wire my my' fd [] (as_queue rest)
          (IsUpdate_trans my.fd_to_sendq (with_head head).fd_to_sendq my'.fd_to_sendq fd
            (some (record q { head = head } ∷ rest)) (as_queue rest)
            (with_queue-IsUpdate my fd (some (record q { head = head } ∷ rest)) valid)
            finished.update)
          (rw (items-as_queue rest, found, finished.wires)
            (ap (λ x. x ++ unsent rest)
                (sym (append-nil (wire w fd)) ∙ ok.whole (λ e. absurd (cc e)))
              ∙ append_assoc (wire my.world fd) (rest_of q) (unsent rest)
              ∙ sym (append-nil (wire my.world fd ++ (rest_of q ++ unsent rest)))))
          (λ other ne. ap (λ f. f other) finished.wires ∙ ok.others other ne)

    Ends-further :
        (my' my'' : SocketManager V S W)
        → Grows wire my my' fd []
        → Ends my' ssl fd my''
        → Ends my ssl fd my''
    Ends-further my' my'' x (inl r) = inl (record {
      before = r.before;
      removed = r.removed;
      valid = r.valid;
      tried = r.tried;
      bytes = r.bytes;
      behind = r.behind;
      failing = r.failing;
      next = r.next ∙ x.here ∙ append-nil (stream wire my.world my.fd_to_sendq fd);
      elsewhere = λ other ne. r.elsewhere other ne ∙ x.elsewhere other ne;
    })
    Ends-further my' my'' x (inr (y, done)) = inr (Grows-trans my my' my'' fd x y, done)

    broken-IsRemoved :
        IsPush output wire laws ssl my.world fd (rest_of q) broken w
        → IsRemoved my ssl fd (remove_fd closing on_close (with_world my w) fd).1
    unfolding unsent stream
    broken-IsRemoved ok =
        let (w₀, b₀, failing, at) = ok.fails refl in
        record {
          before = with_world my w;
          removed = refl;
          valid = valid;
          tried = w₀;
          bytes = b₀;
          behind = unsent rest;
          failing = failing;
          next = rw found (
              sym (append_assoc (wire w₀ fd) b₀ (unsent rest))
              ∙ ap (λ x. x ++ unsent rest) at
              ∙ append_assoc (wire my.world fd) (rest_of q) (unsent rest));
          elsewhere = λ other ne.
              ap (λ x. x ++ unsent (items (view int_keys my.fd_to_sendq other)))
                (ok.others other ne);
        }

    -- One turn of the loop, if the turns after it are right.
    turn :
        (f : ℕ) (p : Pushed)
        → queue_of my fd ≡ q ∷ rest
        → push_rest output my.world ssl fd (rest_of q) ≡ some (p, w)
        → IsPush output wire laws ssl my.world fd (rest_of q) p w
        → ((my' : SocketManager V S W)
            → IsValid int_keys my'.fd_to_sendq
            → view int_keys my'.fd_to_sendq fd ≡ as_queue rest
            → (my'' : SocketManager V S W) × (resend_loop output on_sent closing on_close f my' ssl
                  fd
                ≡ some my'')
              × Ends my' ssl fd my'')
        → (my'' : SocketManager V S W) × (resend_loop output on_sent closing on_close
              (suc f)
              my
              ssl
              fd
            ≡ some my'')
          × Ends my ssl fd my''
    unfolding resend_loop
    turn f broken queue ran ok further = (
      (remove_fd closing on_close (with_world my w) fd).1,
      rw (queue, ran, resend_loop) refl,
      inl (broken-IsRemoved ok),
    )
    turn f (left b) queue ran ok further = (
      with_head (length q.begin - length b),
      rw (queue, ran, resend_loop) refl,
      inr (left-Grows b ok, left-IsDone b ok),
    )
    turn f all queue ran ok further =
        let head : ℕ = length q.begin in
        let q' : Sendq V = record q { head = head } in
        let up = with_queue-IsUpdate my fd (some (q' ∷ rest)) valid in
        let (my', ended, finished) =
          finish_lem wire on_sent quiet output closing on_close (with_head head) fd q' rest up.valid
            up.here in
        let (my'', went_on, ends) = further my' finished.update.valid finished.update.here in
        (
          my'',
          rw (queue, ran, resend_loop, ended) went_on,
          Ends-further my' my'' (all-Grows my' ok finished) ends,
        )

  loop_lem :
      (f : ℕ) (my : SocketManager V S W) (ssl : Option S) (fd : ℕ)
      → IsValid int_keys my.fd_to_sendq
      → length (items (view int_keys my.fd_to_sendq fd)) < f
      → (my' : SocketManager V S W) × (resend_loop output on_sent closing on_close f my ssl fd
          ≡ some my')
        × Ends my ssl fd my'
  unfolding resend_loop
  loop_lem zero my ssl fd valid enough = absurd (omega (arith, enough))
  loop_lem (suc f) my ssl fd valid enough =
      let at = queue_of-view my fd valid in
      elim (List-cases (queue_of my fd)) [
        | inl none_left ↦ (
          my,
          rw (none_left, resend_loop) refl,
          inr (Grows-refl my fd valid, inl (sym at ∙ none_left)),
        )
        | inr (q, rest, queue) ↦
            let found : view int_keys my.fd_to_sendq fd ≡ some (q ∷ rest) =
              items-cons (view int_keys my.fd_to_sendq fd) q rest (sym at ∙ queue) in
            let (p, w, ran, ok) = push_rest_lem output wire laws my.world ssl fd (rest_of q) in
            turn my ssl fd q rest w valid found f p queue ran ok (λ my' valid' here.
              let fewer : length (items (view int_keys my'.fd_to_sendq fd)) < f =
                rw (here, items-as_queue rest) (omega (arith, rw found at enough)) in
              loop_lem f my' ssl fd valid' fewer)
      ]

  -- Every stream is as it was.
  pub record IsResent (my : SocketManager V S W) (ssl : Option S) (fd : ℕ)
      (my' : SocketManager V S W) : Type 0 where
    pub valid : IsValid int_keys my'.fd_to_sendq
    pub streams :
        (k : ℕ) → stream wire my'.world my'.fd_to_sendq k ≡ stream wire my.world my.fd_to_sendq k
    pub done : IsDone ssl fd my'

  -- If every call of the output tells how many bytes it took, and `on_sent` leaves the queues and
  -- the wires alone: on a valid table of queues, with more fuel than the queue has items,
  -- `sm_resend` returns. Either a call of the output failed, which was given the bytes that come
  -- next on the socket's stream (the bytes sent and behind them those queued), and the socket was
  -- then removed, from a state with the other streams as they were; or every stream is what it was,
  -- the table is valid, and the queue is empty, or the last call of the output was given what is left
  -- of the queue's first item and could take nothing.
  pub resend_lem :
      (f : ℕ) (my : SocketManager V S W) (fd : ℕ)
      → IsValid int_keys my.fd_to_sendq
      → length (items (view int_keys my.fd_to_sendq fd)) < f
      → let ssl = (get_value int_keys my.fd_to_ssl fd).0 in
        (my' : SocketManager V S W) × (resend output on_sent closing on_close f my fd ≡ some my')
        × (IsRemoved my ssl fd my' ⊎ IsResent my ssl fd my')
  unfolding resend
  resend_lem f my fd valid enough =
      let my₁ : SocketManager V S W = record my {
        fd_to_sendq = (get_value int_keys my.fd_to_sendq fd).1;
        fd_to_ssl = (get_value int_keys my.fd_to_ssl fd).1;
      } in
      let up = (get_value_lem int_keys int_keys-IsLawful my.fd_to_sendq fd valid).1 in
      let same = get_value-stream wire my fd valid in
      let (my', ran, ends) =
        loop_lem f my₁ (get_value int_keys my.fd_to_ssl fd).0 fd up.valid (rw up.here enough) in
      (
        my',
        ran,
        elim ends [
          | inl r ↦ inl (record {
            before = r.before;
            removed = r.removed;
            valid = r.valid;
            tried = r.tried;
            bytes = r.bytes;
            behind = r.behind;
            failing = r.failing;
            next = r.next ∙ same fd;
            elsewhere = λ other ne. r.elsewhere other ne ∙ same other;
          })
          | inr (x, done) ↦ inr (record {
            valid = x.valid;
            streams = λ k.
                elim (ℕ_discrete fd k) [
                  | yes e ↦
                      rw (← e) (x.here ∙ append-nil (stream wire my₁.world my₁.fd_to_sendq fd))
                  | no ne ↦ x.elsewhere k ne
                ]
                ∙ same k;
            done = done;
          })
        ],
      )
