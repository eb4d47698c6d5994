-- ===== src/Framing/Packets.antt =====
-- A stream that is a row of whole packets is handed to the packet handler packet by packet.
use mathlib.Core.List.{flatten}
use ios_webkit_debug_proxy.Prelude.{
  ℕ, suc, ◌+◌, ◌≤◌, ◌≡◌, refl, ◌∙◌, ◌*◌, zero, inl, inr, true, false, Option, some, List, [], ◌∷◌,
  ◌++◌, length, take, leb, arith, take-append_le, length-append, take-length-append,
  drop-length-append,
}
use ios_webkit_debug_proxy.Prelude.Status.{Status, success, error, Status-cases}
use ios_webkit_debug_proxy.Framing.{Reader, loop, run, rounds, deliver}

abbrev pub idle : {X : Type 0} → X → Reader X
idle x = record { has_length = false; body_length = 0; rest = x }

module _ (header : List ℕ → Option ℕ) (extent : ℕ → ℕ) where
  -- A packet whose first four bytes give its own length.
  pub record IsPacket (p : List ℕ) : Type 0 where
    pub body : ℕ
    pub long : 4 ≤ length p
    pub read : header (take 4 p) ≡ some body
    pub whole : extent body ≡ length p

  abbrev pub AllPackets : List (List ℕ) → Type 0
  AllPackets [] = Unit
  AllPackets (p ∷ ps) = IsPacket p × AllPackets ps

module _ {X : Type 0} (header : List ℕ → Option ℕ) (extent : ℕ → ℕ)
    (recv : X → List ℕ → Status × X) where
  -- Two rounds: the length, then the packet.
  loop_packet :
      (f : ℕ) (p b : List ℕ) (x : X)
      → IsPacket header extent p
      → (recv x p).0 ≡ success
      → loop header extent recv (suc (suc f)) (p ++ b) (idle x)
        ≡ loop header extent recv f b (idle (recv x p).1)
  unfolding loop
  loop_packet f p b x k ok =
      let a : leb 4 (length (p ++ b)) ≡ true = ground (arith, length-append p b, k.long) in
      let c : leb (length p) (length (p ++ b)) ≡ true = ground (arith, length-append p b) in
      rw (
        a,
        take-append_le 4 p b k.long,
        k.read,
        k.whole,
        c,
        take-length-append p b,
        ok,
        k.whole,
        drop-length-append p b,
        take-length-append p b,
      )

  loop_refused :
      (f : ℕ) (p b : List ℕ) (x : X)
      → IsPacket header extent p
      → (recv x p).0 ≡ error
      → loop header extent recv (suc (suc f)) (p ++ b) (idle x) ≡ some (error, b, idle (recv x p).1)
  unfolding loop
  loop_refused f p b x k bad =
      let a : leb 4 (length (p ++ b)) ≡ true = ground (arith, length-append p b, k.long) in
      let c : leb (length p) (length (p ++ b)) ≡ true = ground (arith, length-append p b) in
      rw (
        a,
        take-append_le 4 p b k.long,
        k.read,
        k.whole,
        c,
        take-length-append p b,
        bad,
        k.whole,
        drop-length-append p b,
        take-length-append p b,
      )

  -- What is left of the stream after the packets are handled: nothing, unless one is refused.
  pub left_over : X → List (List ℕ) → List ℕ
  left_over x [] = []
  left_over x (p ∷ ps) = elim (recv x p).0 [
    | error ↦ flatten ps
    | success ↦ left_over (recv x p).1 ps
  ]

  loop-deliver :
      (ps : List (List ℕ)) (f : ℕ) (x : X)
      → AllPackets header extent ps
      → 2 * length ps + 1 ≤ f
      → loop header extent recv f (flatten ps) (idle x)
        ≡ some ((deliver recv x ps).0, left_over x ps, idle (deliver recv x ps).1)
  unfolding deliver left_over flatten
  loop-deliver [] zero x all le = absurd (omega arith)
  loop-deliver [] (suc f) x all le = unfold loop in refl
  loop-deliver (p ∷ ps) zero x all le = absurd (omega arith)
  loop-deliver (p ∷ ps) (suc zero) x all le = absurd (omega arith)
  loop-deliver (p ∷ ps) (suc (suc f)) x all le = elim (Status-cases (recv x p).0) [
    | inl ok ↦
        loop_packet f p (flatten ps) x all.0 ok
        ∙ rw (ok, deliver, left_over) (loop-deliver ps f (recv x p).1 all.1 (omega arith))
    | inr bad ↦ loop_refused f p (flatten ps) x all.0 bad ∙ rw (bad, deliver, left_over)
  ]

  packets-short :
      (ps : List (List ℕ)) → AllPackets header extent ps → length ps ≤ length (flatten ps)
  unfolding flatten
  packets-short [] all = omega arith
  packets-short (p ∷ ps) all =
      omega (arith, length-append p (flatten ps), packets-short ps all.1, all.0.long)

  -- Whole packets are delivered one by one, in order, up to the first that is refused; behind the
  -- last nothing is left over.
  pub run-deliver :
      (ps : List (List ℕ)) (x : X)
      → AllPackets header extent ps
      → run header extent recv (flatten ps) (idle x)
        ≡ some ((deliver recv x ps).0, left_over x ps, idle (deliver recv x ps).1)
  unfolding run
  run-deliver ps x all =
      loop-deliver ps (rounds header extent recv (flatten ps)) x all
        (omega (arith, packets-short ps all))

  pub left_over-nil :
      (ps : List (List ℕ)) (x : X) → (deliver recv x ps).0 ≡ success → left_over x ps ≡ []
  unfolding deliver left_over
  left_over-nil [] x h = refl
  left_over-nil (p ∷ ps) x h = ground (arith, left_over-nil ps (recv x p).1)
