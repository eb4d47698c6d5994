-- ===== src/SocketManager/Send/Served/Loop.antt =====
-- src/socket_manager.c: `sm_resend` leaves no socket unread without a reason, nor does `sm_send`.
use ios_webkit_debug_proxy.Prelude.{
  ℕ, zero, suc, ◌-◌, ◌<◌, ◌≡◌, ◌⊎◌, refl, sym, ap, subst, ◌∙◌, inl, inr, Option, some, none,
  Option-cases, List, [], ◌∷◌, length, ◌>>=◌,
}
use ios_webkit_debug_proxy.Prelude.Status.{Status}
use ios_webkit_debug_proxy.HashTable.{get_value}
use ios_webkit_debug_proxy.HashTable.Keys.{int_keys, int_keys-IsLawful}
use ios_webkit_debug_proxy.HashTable.Table.{IsValid, view}
use ios_webkit_debug_proxy.HashTable.Laws.{IsUpdate}
use ios_webkit_debug_proxy.HashTable.Ops.{get_value_lem}
use ios_webkit_debug_proxy.SocketManager.{SocketManager, Sendq, Closing, OnClose, remove_fd}
use ios_webkit_debug_proxy.SocketManager.Send.{
  Pushed, all, left, broken, Output, OnSent, items, rest_of, queue_of, with_queue, with_world,
  dequeue, reenable, push_rest, finish, send, resend_loop, resend,
}
use ios_webkit_debug_proxy.SocketManager.Send.Stream.{with_queue-IsUpdate, queue_of-view}
use ios_webkit_debug_proxy.SocketManager.Send.Stream.Finish.{
  List-cases, as_queue, items-as_queue, items-cons, reenable-queues, dequeue-queues,
}
use ios_webkit_debug_proxy.SocketManager.Send.Stream.{OutputLaws}
use ios_webkit_debug_proxy.SocketManager.Send.Stream.Growing.{IsQuiet}
use ios_webkit_debug_proxy.SocketManager.Send.Stream.Sending.{send_lem}
use ios_webkit_debug_proxy.SocketManager.Send.Stream.Resending.{resend_lem}
use ios_webkit_debug_proxy.SocketManager.Send.Stream.Push.{Fails, push_rest-Fails}
use ios_webkit_debug_proxy.SocketManager.Send.Served.{
  IsServed, requeued-IsServed, reenable-IsServed,
}
use ios_webkit_debug_proxy.SocketManager.Send.Served.Kept.{
  IsStill, same_fields, looked_up-IsServed, send-IsServed,
}

module _ {V S W : Type 0} where
  dequeue-fds :
      (my : SocketManager V S W) (fd : ℕ) (next : List (Sendq V))
      → ((dequeue my fd next).all_fds ≡ my.all_fds) × ((dequeue my fd next).recv_fds ≡ my.recv_fds)
  unfolding dequeue
  dequeue-fds my fd [] = (refl, refl)
  dequeue-fds my fd (q ∷ qs) = (refl, refl)

  module _ (output : Output S W) (on_sent : OnSent V S W) (still : IsStill on_sent)
      (closing : Closing S W) (on_close : OnClose V S W) where
    finish-IsServed :
        (my my' : SocketManager V S W) (fd : ℕ) (q : Sendq V) (next : List (Sendq V))
        → IsValid int_keys my.fd_to_sendq
        → view int_keys my.fd_to_sendq fd ≡ some (q ∷ next)
        → IsServed my
        → finish output on_sent closing on_close my fd q ≡ some my'
        → IsValid int_keys my'.fd_to_sendq × IsServed my'
    unfolding finish
    finish-IsServed my my' fd q next valid found h ran =
        let my₁ = on_sent my fd q.value q.begin in
        let kept = still.queues my fd q.value q.begin in
        let valid₁ : IsValid int_keys my₁.fd_to_sendq = rw kept valid in
        let found₁ : view int_keys my₁.fd_to_sendq fd ≡ some (q ∷ next) = rw kept found in
        let queue : queue_of my₁ fd ≡ q ∷ next = queue_of-view my₁ fd valid₁ ∙ ap items found₁ in
        let served₁ : IsServed my₁ =
          same_fields my my₁ kept (still.watched my fd q.value q.begin)
            (still.read my fd q.value q.begin) h in
        let my₂ = dequeue my₁ fd next in
        let up : IsUpdate int_keys my₁.fd_to_sendq fd (as_queue next) my₂.fd_to_sendq =
          rw (dequeue-queues my₁ fd next) (with_queue-IsUpdate my₁ fd (as_queue next) valid₁) in
        let fds = dequeue-fds my₁ fd next in
        let same : reenable my₂ q.recv_fd ≡ my' = cc (rw (queue, finish) at ran) in
        subst (λ (x : SocketManager V S W). IsValid int_keys x.fd_to_sendq × IsServed x) same
          (
            rw (reenable-queues my₂ q.recv_fd) up.valid,
            reenable-IsServed my₁ my₂ fd q next (as_queue next) found₁ (items-as_queue next) up
                fds.0 fds.1 served₁,
          )

    -- The socket is removed, after a call of the output that failed, from a state in which every
    -- watched socket is served.
    pub record IsRemoved (ssl : Option S) (fd : ℕ) (my' : SocketManager V S W) : Type 0 where
      pub before : SocketManager V S W
      pub removed : my' ≡ (remove_fd closing on_close before fd).1
      pub served : IsServed before
      pub tried : W
      pub bytes : List ℕ
      pub failing : Fails output tried ssl fd bytes before.world

    abbrev Ends : Option S → ℕ → SocketManager V S W → Type 0
    Ends ssl fd my' = IsRemoved ssl fd my' ⊎ IsServed my'

    -- What `sm_resend` does behind the loop over the bytes of the first item.
    turn_of :
        ℕ
        → SocketManager V S W
        → Option S
        → ℕ
        → Sendq V
        → List (Sendq V)
        → Option (Pushed × W)
        → Option (SocketManager V S W)
    turn_of f my ssl fd q rest none = none
    turn_of f my ssl fd q rest (some (broken, w)) =
        some (remove_fd closing on_close (with_world my w) fd).1
    turn_of f my ssl fd q rest (some (left b, w)) = some (
        with_queue (with_world my w) fd
          (some (record q { head = length q.begin - length b } ∷ rest)))
    turn_of f my ssl fd q rest (some (all, w)) =
        finish output on_sent closing on_close
          (with_queue (with_world my w) fd (some (record q { head = length q.begin } ∷ rest))) fd
          (record q { head = length q.begin })
        >>= λ my'. resend_loop output on_sent closing on_close f my' ssl fd

    loop-turn_of :
        (f : ℕ) (my : SocketManager V S W) (ssl : Option S) (fd : ℕ) (q : Sendq V)
        (rest : List (Sendq V)) (o : Option (Pushed × W))
        → queue_of my fd ≡ q ∷ rest
        → push_rest output my.world ssl fd (rest_of q) ≡ o
        → resend_loop output on_sent closing on_close (suc f) my ssl fd
          ≡ turn_of f my ssl fd q rest o
    unfolding resend_loop turn_of
    loop-turn_of f my ssl fd q rest none queue pushed = rw (queue, pushed, resend_loop) refl
    loop-turn_of f my ssl fd q rest (some (broken, w)) queue pushed =
        rw (queue, pushed, resend_loop) refl
    loop-turn_of f my ssl fd q rest (some (left b, w)) queue pushed =
        rw (queue, pushed, resend_loop) refl
    loop-turn_of f my ssl fd q rest (some (all, w)) queue pushed =
        rw (queue, pushed, resend_loop) refl

    loop-zero :
        (my : SocketManager V S W) (ssl : Option S) (fd : ℕ)
        → resend_loop output on_sent closing on_close 0 my ssl fd ≡ none
    unfolding resend_loop
    loop-zero my ssl fd = refl

    loop-nil :
        (f : ℕ) (my : SocketManager V S W) (ssl : Option S) (fd : ℕ)
        → queue_of my fd ≡ []
        → resend_loop output on_sent closing on_close (suc f) my ssl fd ≡ some my
    unfolding resend_loop
    loop-nil f my ssl fd queue = rw (queue, resend_loop) refl

    -- An item of the same cause in front of the queue.
    with_head-IsServed :
        (my : SocketManager V S W) (w : W) (fd : ℕ) (q : Sendq V) (rest : List (Sendq V)) (n : ℕ)
        → IsValid int_keys my.fd_to_sendq
        → view int_keys my.fd_to_sendq fd ≡ some (q ∷ rest)
        → IsServed my
        → IsServed (with_queue (with_world my w) fd (some (record q { head = n } ∷ rest)))
    with_head-IsServed my w fd q rest n valid found h =
        requeued-IsServed my (with_queue (with_world my w) fd (some (record q { head = n } ∷ rest)))
          fd (some (record q { head = n } ∷ rest))
          (with_queue-IsUpdate my fd (some (record q { head = n } ∷ rest)) valid)
          (λ r waits. rw found at waits) refl refl h

    turn-IsServed :
        (f : ℕ) (my my' : SocketManager V S W) (ssl : Option S) (fd : ℕ) (q : Sendq V)
        (rest : List (Sendq V)) (o : Option (Pushed × W))
        → IsValid int_keys my.fd_to_sendq
        → view int_keys my.fd_to_sendq fd ≡ some (q ∷ rest)
        → IsServed my
        → ((my₁ : SocketManager V S W)
            → IsValid int_keys my₁.fd_to_sendq
            → IsServed my₁
            → resend_loop output on_sent closing on_close f my₁ ssl fd ≡ some my'
            → Ends ssl fd my')
        → push_rest output my.world ssl fd (rest_of q) ≡ o
        → turn_of f my ssl fd q rest o ≡ some my'
        → Ends ssl fd my'
    unfolding turn_of
    turn-IsServed f my my' ssl fd q rest none valid found h further pushed ran = absurd (cc ran)
    turn-IsServed f my my' ssl fd q rest (some (broken, w)) valid found h further pushed ran =
        let (tried, bytes, failing) = push_rest-Fails output my.world ssl fd (rest_of q) w pushed in
        inl (record {
          before = with_world my w;
          removed = cc ran;
          served = same_fields my (with_world my w) refl refl refl h;
          tried = tried;
          bytes = bytes;
          failing = failing;
        })
    turn-IsServed f my my' ssl fd q rest (some (left b, w)) valid found h further pushed ran =
        let n : ℕ = length q.begin - length b in
        let same : with_queue (with_world my w) fd (some (record q { head = n } ∷ rest)) ≡ my' =
          cc ran in
        inr (
          subst (λ (x : SocketManager V S W). IsServed x) same
            (with_head-IsServed my w fd q rest n valid found h))
    turn-IsServed f my my' ssl fd q rest (some (all, w)) valid found h further pushed ran =
        let q' : Sendq V = record q { head = length q.begin } in
        let my₁ = with_queue (with_world my w) fd (some (q' ∷ rest)) in
        let up = with_queue-IsUpdate my fd (some (q' ∷ rest)) valid in
        elim (Option-cases (finish output on_sent closing on_close my₁ fd q')) [
          | inl n ↦ absurd (cc (rw n at ran))
          | inr (my₂, ended) ↦
              let (valid₂, served₂) =
                finish-IsServed my₁ my₂ fd q' rest up.valid up.here
                  (with_head-IsServed my w fd q rest (length q.begin) valid found h) ended in
              further my₂ valid₂ served₂ (rw ended at ran)
        ]

    loop-IsServed :
        (f : ℕ) (my my' : SocketManager V S W) (ssl : Option S) (fd : ℕ)
        → IsValid int_keys my.fd_to_sendq
        → IsServed my
        → resend_loop output on_sent closing on_close f my ssl fd ≡ some my'
        → Ends ssl fd my'
    loop-IsServed zero my my' ssl fd valid h ran = absurd (cc (sym (loop-zero my ssl fd) ∙ ran))
    loop-IsServed (suc f) my my' ssl fd valid h ran = elim (List-cases (queue_of my fd)) [
      | inl none_left ↦
          let same : my ≡ my' = cc (sym (loop-nil f my ssl fd none_left) ∙ ran) in
          inr (subst (λ (x : SocketManager V S W). IsServed x) same h)
      | inr (q, rest, queue) ↦
          let o = push_rest output my.world ssl fd (rest_of q) in
          turn-IsServed f my my' ssl fd q rest o valid
            (items-cons (view int_keys my.fd_to_sendq fd) q rest
              (sym (queue_of-view my fd valid) ∙ queue))
            h (λ my₁ valid₁ h₁ went_on. loop-IsServed f my₁ my' ssl fd valid₁ h₁ went_on) refl
            (sym (loop-turn_of f my ssl fd q rest o queue refl) ∙ ran)
    ]

    resend-IsServed :
        (f : ℕ) (my my' : SocketManager V S W) (fd : ℕ)
        → IsValid int_keys my.fd_to_sendq
        → IsServed my
        → resend output on_sent closing on_close f my fd ≡ some my'
        → Ends (get_value int_keys my.fd_to_ssl fd).0 fd my'
    unfolding resend
    resend-IsServed f my my' fd valid h ran =
        let my₁ : SocketManager V S W = record my {
          fd_to_sendq = (get_value int_keys my.fd_to_sendq fd).1;
          fd_to_ssl = (get_value int_keys my.fd_to_ssl fd).1;
        } in
        loop-IsServed f my₁ my' (get_value int_keys my.fd_to_ssl fd).0 fd
          (get_value_lem int_keys int_keys-IsLawful my.fd_to_sendq fd valid).1.valid
          (looked_up-IsServed my my₁ fd valid refl refl refl h) ran

    -- If every call of the output tells how many bytes it took, and `on_sent` leaves the queues and the
    -- wires alone, and which sockets are watched and read: on a valid table of queues, if every
    -- watched socket other than 0 is read or waited for by a queued item, `sm_send` returns and this
    -- is still so; and with more fuel than the queue has items, `sm_resend` returns, and this is
    -- still so, or a call of the output has failed, and in a state in which this was still so the
    -- socket was removed.
    pub send-resend-IsServed :
        (wire : W → ℕ → List ℕ)
        → OutputLaws output wire
        → IsQuiet wire on_sent
        → (my : SocketManager V S W) (fd : ℕ) → IsValid int_keys my.fd_to_sendq
        → IsServed my
        → ((bytes : List ℕ) (value : Option V)
            → (s : Status) × (my' : SocketManager V S W) × (send output on_sent my fd bytes value
                ≡ some (s, my'))
              × IsServed my')
          × ((f : ℕ)
              → length (items (view int_keys my.fd_to_sendq fd)) < f
              → (my' : SocketManager V S W) × (resend output on_sent closing on_close f my fd
                  ≡ some my')
                × (IsRemoved (get_value int_keys my.fd_to_ssl fd).0 fd my' ⊎ IsServed my'))
    send-resend-IsServed wire laws quiet my fd valid h = (
      λ bytes value.
          let (s, my', ran, grows) =
            send_lem wire output laws on_sent quiet my fd bytes value valid in
          (s, my', ran, send-IsServed output on_sent still my fd bytes value valid h s my' ran),
      λ f enough.
          let (my', ran, ends) =
            resend_lem wire on_sent quiet output laws closing on_close f my fd valid enough in
          (my', ran, resend-IsServed f my my' fd valid h ran),
    )
