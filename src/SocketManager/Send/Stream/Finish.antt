-- ===== src/SocketManager/Send/Stream/Finish.antt =====
-- src/socket_manager.c: the end of a queued item in `sm_resend`.
use ios_webkit_debug_proxy.Prelude.{
  ℕ, zero, suc, ◌-◌, ◌≡◌, ◌⊎◌, refl, ap, ◌∙◌, inl, inr, Bool, Bool-cases, not, ◌&&◌, Option, some,
  none, List, [], ◌∷◌, length, length-drop, drop, arith, ◌==◌,
}
use ios_webkit_debug_proxy.HashTable.Keys.{int_keys}
use ios_webkit_debug_proxy.HashTable.Table.{IsValid, view}
use ios_webkit_debug_proxy.HashTable.Laws.{IsUpdate}
use ios_webkit_debug_proxy.SocketManager.{SocketManager, Sendq, Closing, OnClose}
use ios_webkit_debug_proxy.SocketManager.Send.{
  Output, OnSent, items, queue_of, with_queue, is_awaited, reenable, dequeue, finish,
}
use ios_webkit_debug_proxy.SocketManager.Send.Stream.{Queues, with_queue-IsUpdate, queue_of-view}
use ios_webkit_debug_proxy.SocketManager.Send.Stream.Growing.{IsQuiet}

pub List-cases :
    {A : Type 0} (xs : List A) → (xs ≡ []) ⊎ ((x : A) × (rest : List A) × (xs ≡ x ∷ rest))
List-cases [] = inl refl
List-cases (x ∷ xs) = inr (x, xs, refl)

-- The end of a list, found again by its length.
pub drop-length-drop :
    {A : Type 0} (n : ℕ) (xs : List A) → drop (length xs - length (drop n xs)) xs ≡ drop n xs
drop-length-drop zero xs = let e : length xs - length xs ≡ 0 = omega arith in rw e refl
drop-length-drop (suc n) [] = refl
drop-length-drop (suc n) (x ∷ xs) =
    let at : suc (length xs) - length (drop n xs) ≡ suc (length xs - length (drop n xs)) =
      omega (arith, length-drop n xs) in
    rw at (drop-length-drop n xs)

-- The queue that is put for the items that are left: NULL for none.
abbrev pub as_queue : {V : Type 0} → List (Sendq V) → Option (List (Sendq V))
as_queue [] = none
as_queue (q ∷ qs) = some (q ∷ qs)

pub items-as_queue : {V : Type 0} (qs : List (Sendq V)) → items (as_queue qs) ≡ qs
items-as_queue [] = refl
items-as_queue (q ∷ qs) = refl

pub items-cons :
    {V : Type 0} (o : Option (List (Sendq V))) (q : Sendq V) (qs : List (Sendq V))
    → items o ≡ q ∷ qs
    → o ≡ some (q ∷ qs)
items-cons none q qs h = absurd (cc h)
items-cons (some xs) q qs h = ap some h

pub IsUpdate_trans :
    {V : Type 0} (t t₁ t₂ : Queues V) (k : ℕ) (v₁ v₂ : Option (List (Sendq V)))
    → IsUpdate int_keys t k v₁ t₁
    → IsUpdate int_keys t₁ k v₂ t₂
    → IsUpdate int_keys t k v₂ t₂
IsUpdate_trans t t₁ t₂ k v₁ v₂ a b = record {
  valid = b.valid;
  here = b.here;
  elsewhere = λ j ne. b.elsewhere j ne ∙ a.elsewhere j ne;
}

module _ {V S W : Type 0} where
  pub dequeue-queues :
      (my : SocketManager V S W) (fd : ℕ) (next : List (Sendq V))
      → (dequeue my fd next).fd_to_sendq ≡ (with_queue my fd (as_queue next)).fd_to_sendq
  unfolding dequeue
  dequeue-queues my fd [] = refl
  dequeue-queues my fd (q ∷ qs) = refl

  dequeue-world :
      (my : SocketManager V S W) (fd : ℕ) (next : List (Sendq V))
      → (dequeue my fd next).world ≡ my.world
  unfolding dequeue
  dequeue-world my fd [] = refl
  dequeue-world my fd (q ∷ qs) = refl

  abbrev can_read : SocketManager V S W → ℕ → Bool
  can_read my fd = not (fd == 0) && my.all_fds fd && not (is_awaited my fd)

  pub reenable-queues :
      (my : SocketManager V S W) (fd : ℕ) → (reenable my fd).fd_to_sendq ≡ my.fd_to_sendq
  unfolding reenable
  reenable-queues my fd = elim (Bool-cases (can_read my fd)) [
    | inl y ↦ rw y refl
    | inr n ↦ rw n refl
  ]

  reenable-world : (my : SocketManager V S W) (fd : ℕ) → (reenable my fd).world ≡ my.world
  unfolding reenable
  reenable-world my fd = elim (Bool-cases (can_read my fd)) [
    | inl y ↦ rw y refl
    | inr n ↦ rw n refl
  ]

  module _ (wire : W → ℕ → List ℕ) (on_sent : OnSent V S W) (quiet : IsQuiet wire on_sent) where
    -- The end of an item: its queue is what is behind it.
    pub record IsFinished (my : SocketManager V S W) (fd : ℕ) (next : List (Sendq V))
        (my' : SocketManager V S W) : Type 0 where
      pub update : IsUpdate int_keys my.fd_to_sendq fd (as_queue next) my'.fd_to_sendq
      pub wires : wire my'.world ≡ wire my.world

    pub finish_lem :
        (output : Output S W) (closing : Closing S W) (on_close : OnClose V S W)
        (my : SocketManager V S W) (fd : ℕ) (q : Sendq V) (next : List (Sendq V))
        → IsValid int_keys my.fd_to_sendq
        → view int_keys my.fd_to_sendq fd ≡ some (q ∷ next)
        → (my' : SocketManager V S W) × (finish output on_sent closing on_close my fd q ≡ some my')
          × IsFinished my fd next my'
    unfolding finish
    finish_lem output closing on_close my fd q next valid found =
        let my₁ = on_sent my fd q.value q.begin in
        let kept = quiet.queues my fd q.value q.begin in
        let queue : queue_of my₁ fd ≡ q ∷ next =
          queue_of-view my₁ fd (rw kept valid) ∙ rw (kept, found) refl in
        let my₂ = dequeue my₁ fd next in
        (
          reenable my₂ q.recv_fd,
          rw (queue, finish) refl,
          record {
            update =
                rw (reenable-queues my₂ q.recv_fd, dequeue-queues my₁ fd next)
                  (rw kept (with_queue-IsUpdate my fd (as_queue next) valid));
            wires =
                ap wire (reenable-world my₂ q.recv_fd ∙ dequeue-world my₁ fd next)
                ∙ quiet.wires my fd q.value q.begin;
          },
        )
