-- ===== src/Framing/Deliver.antt =====
-- Whole packets that arrive together at a reader between packets.
use mathlib.Core.List.{flatten}
use ios_webkit_debug_proxy.Prelude.{
  ℕ, ◌<◌, ◌≡◌, refl, sym, ap, ap₂, ◌∙◌, Option, some, List, [], ◌∷◌, length, arith, Bool, true,
  length-append,
}
use ios_webkit_debug_proxy.Prelude.Status.{Status, success}
use ios_webkit_debug_proxy.CharBuffer.{CharBuffer, size_mod}
use ios_webkit_debug_proxy.CharBuffer.Capacity.{IsValid}
use ios_webkit_debug_proxy.Framing.{Reader, Source, run, receive, deliver}
use ios_webkit_debug_proxy.Framing.Loop.{Progress}
use ios_webkit_debug_proxy.Framing.Packets.{AllPackets, idle, run-deliver, left_over, left_over-nil}
use ios_webkit_debug_proxy.Framing.Receive.{Received, receive_lem, receive-nil, same_outcome}

module _ {X : Type 0} (recv : X → List ℕ → Status × X) where
  -- The reader is between packets again, having handled `ps` with status `s`.
  pub record HasDelivered (x : X) (ps : List (List ℕ)) (s : Status) (my : Source X) : Type 0 where
    pub handled : deliver recv x ps ≡ (s, my.reader.rest)
    pub between : my.reader ≡ idle my.reader.rest
    pub nothing_left : s ≡ success → my.input.live ≡ []

module _ {X : Type 0} (header : List ℕ → Option ℕ) (extent : ℕ → ℕ) (recv : X → List ℕ → Status × X)
    (alloc : ℕ → Bool) where
  module _ (progress : Progress header extent recv) (all : (n : ℕ) → alloc n ≡ true)
      (input : CharBuffer) (x : X) (valid : IsValid input) (empty : input.live ≡ []) where
    delivered :
        (ps : List (List ℕ)) (buf : List ℕ) (s : Status) (my : Source X)
        → AllPackets header extent ps
        → buf ≡ flatten ps
        → Received header extent recv alloc (record { input = input; reader = idle x }) buf s my
        → HasDelivered recv x ps s my
    delivered ps buf s my packets e d =
        let ran : run header extent recv (flatten ps) (idle x)
            ≡ some (s, my.input.live, my.reader) =
          rw (← e) (rw empty at d.ran) in
        let (t, r, l) =
          same_outcome (deliver recv x ps).0 s (left_over header extent recv x ps) my.input.live
            (idle (deliver recv x ps).1) my.reader
            (sym (run-deliver header extent recv ps x packets) ∙ ran) in
        record {
          handled = ap₂ (λ s x. (s, x)) t (ap (λ (w : Reader X). w.rest) r);
          between = sym r ∙ ap (λ (w : Reader X). idle w.rest) r;
          nothing_left = λ ok. sym l ∙ left_over-nil header extent recv ps x (t ∙ ok);
        }

    -- The packets are handled in order up to the first that is refused.
    pub deliver_all :
        (ps : List (List ℕ)) (buf : List ℕ)
        → AllPackets header extent ps
        → buf ≡ flatten ps
        → length buf < size_mod
        → (s : Status) × (my : Source X) × (receive header extent recv alloc
              (record { input = input; reader = idle x })
              (some buf)
            ≡ some (s, my))
          × HasDelivered recv x ps s my
    unfolding flatten
    deliver_all [] [] packets e small = (
      success,
      record { input = input; reader = idle x },
      receive-nil header extent recv alloc _,
      record { handled = unfold deliver in refl; between = refl; nothing_left = λ ok. empty },
    )
    deliver_all (p ∷ ps) [] packets e small =
        absurd (omega (arith, ap length e, length-append p (flatten ps), packets.0.long))
    deliver_all ps (b ∷ bs) packets e small =
        let (s, my, d) =
          receive_lem header extent recv alloc progress all
            (record { input = input; reader = idle x }) b bs valid (rw empty (omega arith)) in
        (s, my, d.returns, delivered ps (b ∷ bs) s my packets e d)
