-- ===== src/Framing/Loop.antt =====
-- The packet loop ends, and what it does depends only on the bytes, not on how they were cut.
use ios_webkit_debug_proxy.Prelude.{
  ℕ, zero, suc, ◌+◌, ◌*◌, ◌≤◌, ◌<◌, ◌≡◌, sym, ◌∙◌, inl, inr, true, false, not, ◌&&◌, Option, some,
  List, [], ◌++◌, length, take, drop, leb, if◌then◌else◌, arith, Bool-cases, Option-cases,
  take-append_le, drop-append_le, length-append, length-drop, length-take, append-nil,
}
use ios_webkit_debug_proxy.Prelude.Status.{Status, success, error, Status-cases}
use ios_webkit_debug_proxy.Framing.{Reader, loop, run, rounds}

module _ {X : Type 0} (header : List ℕ → Option ℕ) (extent : ℕ → ℕ)
    (recv : X → List ℕ → Status × X) where
  -- A packet that is handled with success takes at least one byte.
  abbrev pub Progress : Type 0
  Progress =
      (n : ℕ) (x : X) (p : List ℕ) → length p ≡ extent n → (recv x p).0 ≡ success → 0 < length p

  -- Twice the bytes left, and one if the next length is still to be read.
  abbrev measure : List ℕ → Reader X → ℕ
  measure u r = 2 * length u + (if r.has_length then 0 else 1)

  pub loop_total :
      Progress
      → (f : ℕ) (u : List ℕ) (r : Reader X) → measure u r < f
      → (s : Status) × (u' : List ℕ) × (r' : Reader X) × (loop header extent recv f u r
          ≡ some (s, u', r'))
        × (length u' ≤ length u)
  unfolding loop
  loop_total progress zero u r h = absurd (omega arith)
  loop_total progress (suc f) u r h = elim (Bool-cases (not r.has_length && leb 4 (length u))) [
    | inl reads ↦ elim (Option-cases (header (take 4 u))) [
      | inl refused ↦ (error, drop 4 u, r, rw (reads, refused), omega (arith, length-drop 4 u))
      | inr (n, read) ↦
          let (s, u', r', run, le) =
            loop_total progress f u (record r { body_length = n; has_length = true })
              (ground arith) in
          (s, u', r', rw (reads, read) run, le)
    ]
    | inr no_read ↦ elim (Bool-cases (r.has_length && leb (extent r.body_length) (length u))) [
      | inr waits ↦ (success, u, r, rw (no_read, waits), omega arith)
      | inl whole ↦
          let e = extent r.body_length in
          elim (Status-cases (recv r.rest (take e u)).0) [
            | inr bad ↦ (
              error,
              drop e u,
              record { has_length = false; body_length = 0; rest = (recv r.rest (take e u)).1 },
              rw (no_read, whole, bad),
              omega (arith, length-drop e u),
            )
            | inl ok ↦
                let size : length (take e u) ≡ e = ground (arith, length-take e u) in
                let some_taken : 0 < length (take e u) =
                  progress r.body_length r.rest (take e u) size ok in
                let (s, u', r', run, le) =
                  loop_total progress f (drop e u)
                    (record {
                      has_length = false;
                      body_length = 0;
                      rest = (recv r.rest (take e u)).1;
                    })
                    (ground (arith, length-drop e u)) in
                (s, u', r', rw (no_read, whole, ok) run, omega (arith, length-drop e u))
          ]
    ]
  ]

  -- What one round does, and that bytes behind the ones it looks at change nothing.
  data Round (u : List ℕ) (r : Reader X) : Type 0 where
    stops :
        (u' : List ℕ) (r' : Reader X)
        → ((f : ℕ) (b : List ℕ)
            → loop header extent recv (suc f) (u ++ b) r ≡ some (error, u' ++ b, r'))
        → Round u r
    moves :
        (u' : List ℕ) (r' : Reader X)
        → ((f : ℕ) (b : List ℕ)
            → loop header extent recv (suc f) (u ++ b) r ≡ loop header extent recv f (u' ++ b) r')
        → Round u r
    waits : ((f : ℕ) → loop header extent recv (suc f) u r ≡ some (success, u, r)) → Round u r

  leb-append : (n : ℕ) (u b : List ℕ) → leb n (length u) ≡ true → leb n (length (u ++ b)) ≡ true
  leb-append n u b h = rw length-append (ground arith)

  round : (u : List ℕ) (r : Reader X) → Round u r
  unfolding loop
  round u r = elim (Bool-cases (not r.has_length && leb 4 (length u))) [
    | inl reads ↦
        let long : 4 ≤ length u = ground arith in
        let reads' = λ (b : List ℕ).
          let h : not r.has_length && leb 4 (length (u ++ b)) ≡ true =
            ground (arith, leb-append 4 u b) in
          h in
        elim (Option-cases (header (take 4 u))) [
          | inl refused ↦
              stops (drop 4 u) r (λ f b.
                rw (reads' b, take-append_le 4 u b long, refused, drop-append_le 4 u b long))
          | inr (n, read) ↦
              moves u (record r { body_length = n; has_length = true })
                (λ f b. rw (reads' b, take-append_le 4 u b long, read))
        ]
    | inr no_read ↦ elim (Bool-cases (r.has_length && leb (extent r.body_length) (length u))) [
      | inr short ↦ waits (λ f. rw (no_read, short))
      | inl whole ↦
          let e = extent r.body_length in
          let long : e ≤ length u = ground arith in
          let skips = λ (b : List ℕ).
            let h : not r.has_length && leb 4 (length (u ++ b)) ≡ false = ground arith in h in
          let whole' = λ (b : List ℕ).
            let h : r.has_length && leb e (length (u ++ b)) ≡ true =
              ground (arith, leb-append e u b) in
            h in
          let r' : Reader X = record {
            has_length = false;
            body_length = 0;
            rest = (recv r.rest (take e u)).1;
          } in
          elim (Status-cases (recv r.rest (take e u)).0) [
            | inr bad ↦ stops (drop e u) r' (λ f b. rw (
              skips b,
              whole' b,
              take-append_le e u b long,
              bad,
              drop-append_le e u b long,
              take-append_le e u b long,
            ))
            | inl ok ↦ moves (drop e u) r' (λ f b. rw (
              skips b,
              whole' b,
              take-append_le e u b long,
              ok,
              drop-append_le e u b long,
              take-append_le e u b long,
            ))
          ]
    ]
  ]

  -- Fuel beyond what a run needs changes nothing.
  pub loop_more :
      (f g : ℕ) (u : List ℕ) (r : Reader X) {out : Status × List ℕ × Reader X}
      → f ≤ g
      → loop header extent recv f u r ≡ some out
      → loop header extent recv g u r ≡ some out
  loop_more zero g u r le h = unfold loop in cc
  loop_more (suc f) zero u r le h = absurd (omega arith)
  loop_more (suc f) (suc g) u r le h = elim (round u r) [
    | stops u' r' step ↦ simp append-nil at (step g []) ∙ sym (simp append-nil at (step f [])) ∙ h
    | waits step ↦ step g ∙ sym (step f) ∙ h
    | moves u' r' step ↦
        let at = λ (k : ℕ).
          let e : loop header extent recv (suc k) u r ≡ loop header extent recv k u' r' =
            simp append-nil at (step k []) in
          e in
        at g ∙ loop_more f g u' r' (omega arith) (sym (at f) ∙ h)
  ]

  -- A run that asked for more input goes on, when the input comes, as if it had been there before.
  loop_resume :
      (f g n : ℕ) (u u' b : List ℕ) (r r' : Reader X) {out : Status × List ℕ × Reader X}
      → f + g ≤ n
      → loop header extent recv f u r ≡ some (success, u', r')
      → loop header extent recv g (u' ++ b) r' ≡ some out
      → loop header extent recv n (u ++ b) r ≡ some out
  loop_resume zero g n u u' b r r' le h k = unfold loop in cc
  loop_resume (suc f) g zero u u' b r r' le h k = absurd (omega arith)
  loop_resume (suc f) g (suc n) u u' b r r' {out} le h k = elim (round u r) [
    | stops v w step ↦
        let e : loop header extent recv (suc f) u r ≡ some (error, v, w) =
          simp append-nil at (step f []) in
        cc
    | waits step ↦
        let same : loop header extent recv g (u ++ b) r ≡ some out = cc (step f) in
        loop_more g (suc n) (u ++ b) r (omega arith) same
    | moves v w step ↦
        let e : loop header extent recv (suc f) u r ≡ loop header extent recv f v w =
          simp append-nil at (step f []) in
        step n b ∙ loop_resume f g n v u' b w r' (omega arith) (sym e ∙ h) k
  ]

  pub run_total :
      Progress
      → (u : List ℕ) (r : Reader X)
      → (s : Status) × (u' : List ℕ) × (r' : Reader X) × (run header extent recv u r
          ≡ some (s, u', r'))
        × (length u' ≤ length u)
  unfolding run
  run_total progress u r = loop_total progress (rounds header extent recv u) u r (ground arith)

  pub run_resume :
      (u u' b : List ℕ) (r r' : Reader X)
      → Progress
      → run header extent recv u r ≡ some (success, u', r')
      → run header extent recv (u ++ b) r ≡ run header extent recv (u' ++ b) r'
  unfolding run
  run_resume u u' b r r' progress h =
      let fuel = rounds header extent recv in
      let (s, v, w, later, le) = run_total progress (u' ++ b) r' in
      let (s₂, v₂, w₂, at_once, le₂) = run_total progress (u ++ b) r in
      let f = fuel u in
      let g = fuel (u' ++ b) in
      let n = fuel (u ++ b) in
      let m = f + g + n in
      let joined = loop_resume f g m u u' b r r' (omega arith) h later in
      at_once ∙ sym (loop_more n m (u ++ b) r (omega arith) at_once) ∙ joined ∙ sym later
