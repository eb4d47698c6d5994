-- ===== src/Tests/Connections.antt =====
-- src/socket_manager.c with an output that takes one byte at a time.
use ios_webkit_debug_proxy.Prelude.{
  ℕ, ◌<◌, ◌≡◌, ◌≢◌, ◌⊎◌, refl, inl, inr, length, Option, false, some, none, List, [], ◌∷◌, ◌++◌,
  take, sym, append-nil, ◌==◌, if◌then◌else◌, arith,
}
use ios_webkit_debug_proxy.Prelude.Status.{Status, success}
use ios_webkit_debug_proxy.HashTable as Table
use ios_webkit_debug_proxy.HashTable.{put, get_value}
use ios_webkit_debug_proxy.HashTable.Keys.{int_keys}
use ios_webkit_debug_proxy.HashTable.Table.{IsValid, view}
use ios_webkit_debug_proxy.HashTable.Laws.{IsUpdate}
use ios_webkit_debug_proxy.HashTable.Ops.{new_lem}
use ios_webkit_debug_proxy.SocketManager.{
  SocketManager, Sendq, new, add_fd, remove_fd, Closing, OnClose,
}
use ios_webkit_debug_proxy.SocketManager.Watched.{IsMax, add_fd-remove_fd-IsMax}
use ios_webkit_debug_proxy.SocketManager.Send.{
  Sent, count, items, again, with_queue, Output, OnSent, send, resend,
}
use ios_webkit_debug_proxy.SocketManager.Send.Stream.{OutputLaws, with_queue-IsUpdate}
use ios_webkit_debug_proxy.SocketManager.Send.Stream.Growing.{IsQuiet, Grows}
use ios_webkit_debug_proxy.SocketManager.Send.Stream.Sending.{send_lem}
use ios_webkit_debug_proxy.SocketManager.Send.Stream.Resending.{IsRemoved, IsResent, resend_lem}
use ios_webkit_debug_proxy.SocketManager.Send.Served.{IsServed, awaited}
use ios_webkit_debug_proxy.SocketManager.Send.Served.Kept.{IsStill}
use ios_webkit_debug_proxy.SocketManager.Send.Served.Loop
use ios_webkit_debug_proxy.SocketManager.Send.Served.Loop.{send-resend-IsServed}
use ios_webkit_debug_proxy.SocketManager.Receive.{
  Input, Received, Accepted, Selected, Callbacks, cleanup,
}
use ios_webkit_debug_proxy.SocketManager.Receive.Cleanup.{AddsNone, cleanup_lem}

-- The bytes on the wire to each socket.
abbrev Wires : Type 0
Wires = ℕ → List ℕ

abbrev wire_of : Wires → ℕ → List ℕ
wire_of w = w

abbrev put_byte : Wires → ℕ → List ℕ → Sent × Wires
put_byte w fd [] = (count 0, w)
put_byte w fd (c ∷ b) = (count 1, λ x. if x == fd then w x ++ (c ∷ []) else w x)

-- No socket has an SSL session.
abbrev bytewise : Output ⊥ Wires
bytewise = record { send = put_byte; ssl_write = λ w s fd b. absurd s }

bytewise-OutputLaws : OutputLaws bytewise wire_of
bytewise-OutputLaws = record {
  sent = sent_lem;
  waits = waits_lem;
  others = others_lem;
  ssl_sent = λ w s fd n b h. absurd s;
  ssl_waits = λ w s fd b h. absurd s;
  ssl_others = λ w s fd other b ne. absurd s;
}
  where
    sent_lem :
        (w : Wires) (fd n : ℕ) (b : List ℕ)
        → (put_byte w fd b).0 ≡ count n
        → (put_byte w fd b).1 fd ≡ w fd ++ take n b
    sent_lem w fd n [] h = let z : 0 ≡ n = cc h in rw (← z) (sym (append-nil (w fd)))
    sent_lem w fd n (c ∷ b) h = let z : 1 ≡ n = cc h in rw (← z) (ground arith)

    waits_lem :
        (w : Wires) (fd : ℕ) (b : List ℕ)
        → (put_byte w fd b).0 ≡ again
        → (put_byte w fd b).1 fd ≡ w fd
    waits_lem w fd [] h = refl
    waits_lem w fd (c ∷ b) h = absurd (cc h)

    others_lem :
        (w : Wires) (fd other : ℕ) (b : List ℕ) → fd ≢ other → (put_byte w fd b).1 other ≡ w other
    others_lem w fd other [] ne = refl
    others_lem w fd other (c ∷ b) ne = ground (arith, ne)

abbrev Manager : Type 0
Manager = SocketManager ℕ ⊥ Wires

abbrev idle : Manager
idle = new 4096 (λ fd. [])

-- Socket 5 waits with two bytes, of which one is sent, for socket 7.
abbrev item : Sendq ℕ
item = record { value = some 1; recv_fd = 7; begin = 1 ∷ 2 ∷ []; head = 1 }

abbrev waiting : Manager
waiting = with_queue idle 5 (some (item ∷ []))

idle-IsValid : IsValid int_keys idle.fd_to_sendq
unfolding new
idle-IsValid = (new_lem int_keys).0

waiting-IsUpdate : IsUpdate int_keys idle.fd_to_sendq 5 (some (item ∷ [])) waiting.fd_to_sendq
waiting-IsUpdate = with_queue-IsUpdate idle 5 (some (item ∷ [])) idle-IsValid

abbrev ignore_sent : OnSent ℕ ⊥ Wires
ignore_sent my fd value b = my

ignore_sent-IsQuiet : IsQuiet wire_of ignore_sent
ignore_sent-IsQuiet = record { queues = λ my fd value b. refl; wires = λ my fd value b. refl }

send_lem_example :
    (s : Status) × (my' : Manager) × (send bytewise ignore_sent idle 5 (1 ∷ 2 ∷ []) (some 1)
      ≡ some (s, my'))
    × (s ≡ success → Grows wire_of idle my' 5 (1 ∷ 2 ∷ []))
send_lem_example =
    send_lem wire_of bytewise bytewise-OutputLaws ignore_sent ignore_sent-IsQuiet idle 5
      (1 ∷ 2 ∷ []) (some 1) idle-IsValid

abbrev plain : Closing ⊥ Wires
plain = record { close = λ w fd. w; ssl_free = λ w s. w }

abbrev say_closed : OnClose ℕ ⊥ Wires
say_closed my fd value is_server = (success, my)

resend_lem_example :
    let ssl = (get_value int_keys waiting.fd_to_ssl 5).0 in
    (my' : Manager) × (resend bytewise ignore_sent plain say_closed 2 waiting 5 ≡ some my')
    × (IsRemoved wire_of ignore_sent ignore_sent-IsQuiet bytewise bytewise-OutputLaws plain
          say_closed waiting ssl 5 my'
        ⊎ IsResent wire_of ignore_sent ignore_sent-IsQuiet bytewise bytewise-OutputLaws plain
            say_closed waiting ssl 5 my')
resend_lem_example =
    resend_lem wire_of ignore_sent ignore_sent-IsQuiet bytewise bytewise-OutputLaws plain say_closed
      2 waiting 5 waiting-IsUpdate.valid (rw waiting-IsUpdate.here (omega arith))

idle-IsMax : IsMax idle
unfolding new
idle-IsMax = record { bounded = λ fd is_in. absurd (cc is_in); reached = inl refl }

add_fd-remove_fd-IsMax_example :
    IsMax (add_fd idle 5 none (some 1) false).1 × IsMax (remove_fd plain say_closed idle 5).1
add_fd-remove_fd-IsMax_example =
    add_fd-remove_fd-IsMax plain say_closed (λ my fd value is_server h. h) idle 5 none (some 1)
      false idle-IsMax

-- No input comes.
abbrev quiet_input : Input ⊥ Wires
quiet_input = record {
  recv = λ w fd n. (Received.again, w);
  ssl_read = λ w s n. (Received.again, w);
  accept = λ w fd. (Accepted.again, w);
  select = λ w n r s f t. (Selected.interrupted, w);
}

abbrev calls : Callbacks ℕ ⊥ Wires
calls = record {
  on_accept = λ my fd value client. ((success, none), my);
  on_sent = ignore_sent;
  on_recv = λ my fd value b. (success, my);
  on_close = say_closed;
}

say_closed-AddsNone : AddsNone say_closed
say_closed-AddsNone = record {
  max = λ my fd value is_server h. h;
  subset = λ my fd value is_server x h. h;
}

-- Socket 5 is watched.
abbrev busy : Manager
busy = (add_fd idle 5 none (some 1) false).1

busy-IsMax : IsMax busy
busy-IsMax =
    (add_fd-remove_fd-IsMax plain say_closed (λ my fd value is_server h. h) idle 5 none (some 1)
      false idle-IsMax).0

busy_num : busy.num_fds < 7
unfolding add_fd new put Table.new
busy_num = omega arith

cleanup_lem_example :
    (my' : Manager) × (cleanup quiet_input bytewise plain calls 7 busy 0 ≡ some my')
    × (my'.num_fds ≡ 0)
    × ((x : ℕ) → my'.all_fds x ≡ false)
cleanup_lem_example =
    cleanup_lem quiet_input bytewise plain calls say_closed-AddsNone 7 busy busy-IsMax busy_num

-- Socket 7 is watched and not read, because of the item that waits for socket 5.
abbrev paused : Manager
paused = record waiting { all_fds = λ fd. fd == 7 }

paused-IsServed : IsServed paused
paused-IsServed fd watched nonzero =
    let is_seven : fd ≡ 7 = ground (arith, watched) in
    inr (awaited paused fd 5 (some (item ∷ [])) waiting-IsUpdate.here (rw is_seven refl))

ignore_sent-IsStill : IsStill ignore_sent
ignore_sent-IsStill = record {
  queues = λ my fd value b. refl;
  watched = λ my fd value b. refl;
  read = λ my fd value b. refl;
}

send-resend-IsServed_example :
    ((bytes : List ℕ) (value : Option ℕ)
      → (s : Status) × (my' : Manager) × (send bytewise ignore_sent paused 5 bytes value
          ≡ some (s, my'))
        × IsServed my')
    × ((f : ℕ)
        → length (items (view int_keys paused.fd_to_sendq 5)) < f
        → (my' : Manager) × (resend bytewise ignore_sent plain say_closed f paused 5 ≡ some my')
          × (Loop.IsRemoved bytewise ignore_sent ignore_sent-IsStill plain say_closed
                (get_value int_keys paused.fd_to_ssl 5).0
                5
                my'
              ⊎ IsServed my'))
send-resend-IsServed_example =
    send-resend-IsServed bytewise ignore_sent ignore_sent-IsStill plain say_closed wire_of
      bytewise-OutputLaws ignore_sent-IsQuiet paused 5 waiting-IsUpdate.valid paused-IsServed
