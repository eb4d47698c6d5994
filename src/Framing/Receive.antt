-- ===== src/Framing/Receive.antt =====
-- Receiving through the buffer: no fault, no lost byte, and no dependence on how the stream is cut.
use ios_webkit_debug_proxy.Prelude.{
  ℕ, ◌+◌, ◌≤◌, ◌<◌, ◌≡◌, refl, sym, subst, ◌∙◌, Bool, true, Option, some, List, [], ◌∷◌, ◌++◌,
  length, arith, length-append, append-nil, append_assoc, inl, inr,
}
use ios_webkit_debug_proxy.Prelude.Status.{Status, success}
use ios_webkit_debug_proxy.CharBuffer.{CharBuffer, size_mod, unread}
use ios_webkit_debug_proxy.CharBuffer.Capacity.{IsValid}
use ios_webkit_debug_proxy.CharBuffer.Stream.{IsReading, begin_input-IsReading, end_input-keeps}
use ios_webkit_debug_proxy.Framing.{Reader, Source, Outcome, run, receive}
use ios_webkit_debug_proxy.Framing.Loop.{Progress, run_total, run_resume}

IsReading-unread : (view : List ℕ) (d : CharBuffer) → IsReading view d → unread d ≡ view
IsReading-unread view d r = elim r.view_at [ inl (at, e) ↦ rw at | inr (at, e, b) ↦ rw at ]

module _ {X : Type 0} where
  some-pair :
      {s t : Status} {m n : Source X}
      → ◌≡◌ {A = Option (Status × Source X)} (some (s, m)) (some (t, n))
      → (s ≡ t) × (m ≡ n)
  some-pair h = (cc, cc)

  pub same_outcome :
      (s t : Status) (u v : List ℕ) (q r : Reader X)
      → ◌≡◌ {A = Outcome X} (some (s, u, q)) (some (t, v, r))
      → (s ≡ t) × (q ≡ r) × (u ≡ v)
  same_outcome s t u v q r h = (cc, cc, cc)

module _ {X : Type 0} (header : List ℕ → Option ℕ) (extent : ℕ → ℕ) (recv : X → List ℕ → Status × X)
    (alloc : ℕ → Bool) where
  pub receive-nil :
      (my : Source X) → receive header extent recv alloc my (some []) ≡ some (success, my)
  unfolding receive
  receive-nil my = refl

  -- One call of `receive` ran the loop over the bytes kept before and the new ones.
  pub record Received (my : Source X) (buf : List ℕ) (s : Status) (my' : Source X) : Type 0 where
    pub returns : receive header extent recv alloc my (some buf) ≡ some (s, my')
    pub valid : IsValid my'.input
    pub ran :
        run header extent recv (my.input.live ++ buf) my.reader
        ≡ some (s, my'.input.live, my'.reader)
    pub shorter : length my'.input.live ≤ length my.input.live + length buf

  module _ (progress : Progress header extent recv) (all : (n : ℕ) → alloc n ≡ true) where
    pub receive_lem :
        (my : Source X) (b : ℕ) (bs : List ℕ)
        → IsValid my.input
        → length my.input.live + length (b ∷ bs) < size_mod
        → (s : Status) × (my' : Source X) × Received my (b ∷ bs) s my'
    unfolding receive
    receive_lem my b bs valid small =
        let view = my.input.live ++ (b ∷ bs) in
        let (s₁, c, starts, reading, fails, ok) =
          begin_input-IsReading alloc my.input (b ∷ bs) valid small in
        let r : IsReading view c = reading (ok all) in
        let (s, u, r', ran, le) = run_total header extent recv progress view my.reader in
        let (s₂, e, ends, keeps, ok₂) =
          end_input-keeps alloc view u c r le (rw length-append small) in
        let (v, holds) = keeps (ok₂ all) in
        (
          s,
          record { input = e; reader = r' },
          record {
            returns = rw (starts, receive, ok all, IsReading-unread view c r, ran, ends, ok₂ all);
            valid = v;
            ran = rw holds ran;
            shorter = rw (holds, ← length-append) le;
          },
        )

    receive_same :
        (my : Source X) (buf : List ℕ)
        → IsValid my.input
        → length my.input.live + length buf < size_mod
        → (s : Status) × (my' : Source X) × (receive header extent recv alloc my (some buf)
            ≡ some (s, my'))
    receive_same my [] valid small = (success, my, receive-nil _)
    receive_same my (b ∷ bs) valid small =
        let (s, my', d) = receive_lem my b bs valid small in (s, my', d.returns)

    receive_join :
        (my m m₂ m₃ : Source X) (a b : List ℕ) {s₂ s₃ : Status}
        → Received my a success m
        → Received m b s₂ m₂
        → Received my (a ++ b) s₃ m₃
        → (s₂ ≡ s₃) × (m₂.reader ≡ m₃.reader) × (m₂.input.live ≡ m₃.input.live)
    receive_join my m m₂ m₃ a b {s₂} {s₃} first second whole =
        let split =
          run_resume header extent recv (my.input.live ++ a) m.input.live b my.reader m.reader
            progress first.ran in
        let again : run header extent recv ((my.input.live ++ a) ++ b) my.reader
            ≡ some (s₃, m₃.input.live, m₃.reader) =
          rw append_assoc whole.ran in
        same_outcome s₂ s₃ _ _ _ _ (sym second.ran ∙ sym split ∙ again)

    -- A stream that arrives in two pieces is handled as if it had arrived in one: the status is the
    -- same, and so are the reader, with all that the packets did, and the bytes kept for later.
    pub receive_chunks :
        (my m₁ : Source X) (a b : List ℕ)
        → IsValid my.input
        → length my.input.live + length (a ++ b) < size_mod
        → receive header extent recv alloc my (some a) ≡ some (success, m₁)
        → (s : Status) × (m₂ : Source X) × (m₂' : Source X) × (receive header extent recv alloc m₁
              (some b)
            ≡ some (s, m₂))
          × (receive header extent recv alloc my (some (a ++ b)) ≡ some (s, m₂'))
          × (m₂.reader ≡ m₂'.reader)
          × (m₂.input.live ≡ m₂'.input.live)
    receive_chunks my m₁ [] b valid small first =
        let same : my ≡ m₁ = (some-pair (sym (receive-nil my) ∙ first)).1 in
        let (s, m₂, e) = receive_same my b valid small in (s, m₂, m₂, rw (← same) e, e, refl, refl)
    receive_chunks my m₁ (x ∷ xs) [] valid small first =
        (success, m₁, m₁, receive-nil _, rw append-nil first, refl, refl)
    receive_chunks my m₁ (x ∷ xs) (y ∷ ys) valid small first =
        let fits : length my.input.live + length (x ∷ xs) + length (y ∷ ys) < size_mod =
          omega (arith, length-append (x ∷ xs) (y ∷ ys)) in
        let (s₁, m, d) = receive_lem my x xs valid (omega arith) in
        let (ok, same) = some-pair (sym d.returns ∙ first) in
        let (s₂, m₂, d₂) = receive_lem m y ys d.valid (omega (arith, d.shorter)) in
        let (s₃, m₃, d₃) = receive_lem my x (xs ++ (y ∷ ys)) valid small in
        let (t, same_reader, same_live) =
          receive_join my m m₂ m₃ (x ∷ xs) (y ∷ ys) (subst (λ w. Received my (x ∷ xs) w m) ok d) d₂
            d₃ in
        (s₂, m₂, m₃, rw (← same) d₂.returns, rw t d₃.returns, same_reader, same_live)
