-- ===== src/SocketManager/Send/Stream/Push.antt =====
-- src/socket_manager.c: the loops that hand bytes to `send` or `SSL_write`.
use ios_webkit_debug_proxy.Prelude.{
  ℕ, zero, suc, ◌+◌, ◌<◌, ◌≤◌, ◌≡◌, ◌≢◌, ◌⊎◌, refl, sym, ap, subst, ◌∙◌, inl, inr, Bool-cases,
  Option, some, none, List, [], ◌∷◌, ◌++◌, append_assoc, append-nil, length, length-drop, take,
  take-append-drop, drop, leb, leb→le, ◌==◌, arith,
}
use ios_webkit_debug_proxy.SocketManager.Send.{
  Sent, count, again, failed, Pushed, all, left, broken, Output, write, push, push_rest,
}
use ios_webkit_debug_proxy.SocketManager.Send.Stream.{OutputLaws}

Sent-cases : (r : Sent) → ((n : ℕ) × (r ≡ count n)) ⊎ ((r ≡ again) ⊎ (r ≡ failed))
Sent-cases (count n) = inl (n, refl)
Sent-cases again = inr (inl refl)
Sent-cases failed = inr (inr refl)

take_all : {A : Type 0} (n : ℕ) (xs : List A) → length xs ≤ n → take n xs ≡ xs
take_all zero [] h = refl
take_all zero (x ∷ xs) h = absurd (omega (arith, h))
take_all (suc n) [] h = refl
take_all (suc n) (x ∷ xs) h = ap (λ z. x ∷ z) (take_all n xs (omega (arith, h)))

pub drop_all : {A : Type 0} (xs : List A) → drop (length xs) xs ≡ []
drop_all [] = refl
drop_all (x ∷ xs) = drop_all xs

drop-nil : {A : Type 0} (n : ℕ) → drop {A = A} n [] ≡ []
drop-nil zero = refl
drop-nil (suc n) = refl

pub drop-drop : {A : Type 0} (n m : ℕ) (xs : List A) → drop m (drop n xs) ≡ drop (n + m) xs
drop-drop zero m xs = let e : 0 + m ≡ m = omega arith in rw e refl
drop-drop (suc n) m [] = drop-nil m ∙ sym (drop-nil (suc n + m))
drop-drop (suc n) m (x ∷ xs) =
    let e : suc n + m ≡ suc (n + m) = omega arith in rw e (drop-drop n m xs)

-- The bytes that are left, if there is no error.
abbrev pub remaining : Pushed → List ℕ
remaining all = []
remaining (left b) = b
remaining broken = []

module _ {S W : Type 0} (output : Output S W) where
  -- The call that fails, and the world that it leaves.
  abbrev pub Fails : W → Option S → ℕ → List ℕ → W → Type 0
  Fails w none fd b w' = output.send w fd b ≡ (failed, w')
  Fails w (some s) fd b w' = output.ssl_write w s fd b ≡ (failed, w')

  -- The call that can take nothing now.
  abbrev pub Waits : W → Option S → ℕ → List ℕ → W → Type 0
  Waits w none fd b w' = (output.send w fd b ≡ (again, w')) ⊎ (output.send w fd b ≡ (count 0, w'))
  Waits w (some s) fd b w' = output.ssl_write w s fd b ≡ (again, w')

  write-Fails :
      (w : W) (ssl : Option S) (fd : ℕ) (b : List ℕ)
      → (write output w ssl fd b).0 ≡ failed
      → Fails w ssl fd b (write output w ssl fd b).1
  write-Fails w (some s) fd b h = ap (λ r. (r, (output.ssl_write w s fd b).1)) h
  write-Fails w none fd b h = elim (Sent-cases (output.send w fd b).0) [
    | inr (inl e) ↦ absurd (cc (rw e at h))
    | inr (inr e) ↦ ap (λ r. (r, (output.send w fd b).1)) e
    | inl (k, e) ↦ elim (Bool-cases (k == 0)) [
      | inl y ↦ absurd (cc (rw (e, y) at h))
      | inr ne ↦ absurd (cc (rw (e, ne) at h))
    ]
  ]

  write-Waits :
      (w : W) (ssl : Option S) (fd : ℕ) (b : List ℕ)
      → (write output w ssl fd b).0 ≡ again
      → Waits w ssl fd b (write output w ssl fd b).1
  write-Waits w (some s) fd b h = ap (λ r. (r, (output.ssl_write w s fd b).1)) h
  write-Waits w none fd b h = elim (Sent-cases (output.send w fd b).0) [
    | inr (inl e) ↦ inl (ap (λ r. (r, (output.send w fd b).1)) e)
    | inr (inr e) ↦ absurd (cc (rw e at h))
    | inl (k, e) ↦ elim (Bool-cases (k == 0)) [
      | inl y ↦
          let z : k ≡ 0 = ground (arith, y) in
          inr (ap (λ r. (r, (output.send w fd b).1)) (e ∙ ap count z))
      | inr ne ↦ absurd (cc (rw (e, ne) at h))
    ]
  ]

  -- The loop breaks only where a call fails.
  push-Fails :
      (f : ℕ) (w : W) (ssl : Option S) (fd : ℕ) (b : List ℕ) (w' : W)
      → push output f w ssl fd b ≡ some (broken, w')
      → (w₀ : W) × (b₀ : List ℕ) × Fails w₀ ssl fd b₀ w'
  unfolding push
  push-Fails zero w ssl fd b w' ran = cc ran
  push-Fails (suc f) w ssl fd b w' ran = elim (Sent-cases (write output w ssl fd b).0) [
    | inr (inr e) ↦
        let same : (write output w ssl fd b).1 ≡ w' = cc (rw (e, push) at ran) in
        (w, b, subst (λ x. Fails w ssl fd b x) same (write-Fails w ssl fd b e))
    | inr (inl e) ↦ absurd (cc (rw (e, push) at ran))
    | inl (n, e) ↦ elim (Bool-cases (leb (length b) n)) [
      | inl y ↦ absurd (cc (rw (e, y, push) at ran))
      | inr more ↦
          push-Fails f (write output w ssl fd b).1 ssl fd (drop n b) w' (rw (e, more, push) at ran)
    ]
  ]

  pub push_rest-Fails :
      (w : W) (ssl : Option S) (fd : ℕ) (b : List ℕ) (w' : W)
      → push_rest output w ssl fd b ≡ some (broken, w')
      → (w₀ : W) × (b₀ : List ℕ) × Fails w₀ ssl fd b₀ w'
  unfolding push_rest
  push_rest-Fails w ssl fd [] w' ran = cc ran
  push_rest-Fails w ssl fd (c ∷ cs) w' ran =
      push-Fails (suc (length (c ∷ cs))) w ssl fd (c ∷ cs) w' ran

module _ {S W : Type 0} (output : Output S W) (wire : W → ℕ → List ℕ)
    (laws : OutputLaws output wire) where
  write-count :
      (w : W) (ssl : Option S) (fd n : ℕ) (b : List ℕ)
      → (write output w ssl fd b).0 ≡ count n
      → (0 < n) × (wire (write output w ssl fd b).1 fd ≡ wire w fd ++ take n b)
  write-count w (some s) fd n b h = laws.ssl_sent w s fd n b h
  write-count w none fd n b h = elim (Sent-cases (output.send w fd b).0) [
    | inr (inl e) ↦ absurd (cc (rw e at h))
    | inr (inr e) ↦ absurd (cc (rw e at h))
    | inl (k, e) ↦ elim (Bool-cases (k == 0)) [
      | inl y ↦ absurd (cc (rw (e, y) at h))
      | inr ne ↦
          let same : k ≡ n = cc (rw (e, ne) at h) in
          (ground (arith, ne, same), rw (← same) (laws.sent w fd k b e))
    ]
  ]

  write-again :
      (w : W) (ssl : Option S) (fd : ℕ) (b : List ℕ)
      → (write output w ssl fd b).0 ≡ again
      → wire (write output w ssl fd b).1 fd ≡ wire w fd
  write-again w (some s) fd b h = laws.ssl_waits w s fd b h
  write-again w none fd b h = elim (Sent-cases (output.send w fd b).0) [
    | inr (inl e) ↦ laws.waits w fd b e
    | inr (inr e) ↦ absurd (cc (rw e at h))
    | inl (k, e) ↦ elim (Bool-cases (k == 0)) [
      | inl y ↦
          let z : k ≡ 0 = ground (arith, y) in laws.sent w fd k b e ∙ rw z (append-nil (wire w fd))
      | inr ne ↦ absurd (cc (rw (e, ne) at h))
    ]
  ]

  write-others :
      (w : W) (ssl : Option S) (fd other : ℕ) (b : List ℕ)
      → fd ≢ other
      → wire (write output w ssl fd b).1 other ≡ wire w other
  write-others w (some s) fd other b ne = laws.ssl_others w s fd other b ne
  write-others w none fd other b ne = laws.others w fd other b ne

  -- The bytes on the wire and those that are left are the bytes before, without a gap. The loop
  -- gives up only where a call can take nothing, or fails; what that call was given is what was left.
  pub record IsPush (ssl : Option S) (w : W) (fd : ℕ) (b : List ℕ) (p : Pushed) (w' : W)
      : Type 0 where
    pub waits : (b₀ : List ℕ) → p ≡ left b₀ → (w₀ : W) × Waits output w₀ ssl fd b₀ w'
    pub fails :
        p ≡ broken
        → (w₀ : W) × (b₀ : List ℕ) × Fails output w₀ ssl fd b₀ w'
          × (wire w₀ fd ++ b₀ ≡ wire w fd ++ b)
    pub whole : p ≢ broken → wire w' fd ++ remaining p ≡ wire w fd ++ b
    pub others : (other : ℕ) → fd ≢ other → wire w' other ≡ wire w other
    pub suffix : (n : ℕ) × (remaining p ≡ drop n b)

  pub push_lem :
      (f : ℕ) (w : W) (ssl : Option S) (fd : ℕ) (b : List ℕ)
      → length b < f
      → (p : Pushed) × (w' : W) × (push output f w ssl fd b ≡ some (p, w')) × IsPush ssl w fd b p w'
  unfolding push
  push_lem zero w ssl fd b enough = absurd (omega (arith, enough))
  push_lem (suc f) w ssl fd b enough =
      let w₁ = (write output w ssl fd b).1 in
      let others₁ = λ (other : ℕ) (ne : fd ≢ other). write-others w ssl fd other b ne in
      let gone : (n : ℕ) × ([] ≡ drop n b) = (length b, sym (drop_all b)) in
      elim (Sent-cases (write output w ssl fd b).0) [
        | inr (inr e) ↦ (
          broken,
          w₁,
          rw (e, push) refl,
          record {
            waits = λ b₀ h. absurd (cc h);
            fails = λ h. (w, b, write-Fails output w ssl fd b e, refl);
            whole = λ h. absurd (h refl);
            others = others₁;
            suffix = gone;
          },
        )
        | inr (inl e) ↦ (
          left b,
          w₁,
          rw (e, push) refl,
          record {
            waits = λ b₀ h.
                let same : b ≡ b₀ = cc h in (w, rw (← same) (write-Waits output w ssl fd b e));
            fails = λ h. absurd (cc h);
            whole = λ h. ap (λ z. z ++ b) (write-again w ssl fd b e);
            others = others₁;
            suffix = (0, refl);
          },
        )
        | inl (n, e) ↦
            let (positive, grown) = write-count w ssl fd n b e in
            elim (Bool-cases (leb (length b) n)) [
              | inl y ↦ (
                all,
                w₁,
                rw (e, y, push) refl,
                record {
                  waits = λ b₀ h. absurd (cc h);
                  fails = λ h. absurd (cc h);
                  whole = λ h.
                      append-nil (wire w₁ fd)
                      ∙ grown
                      ∙ ap (λ z. wire w fd ++ z) (take_all n b (leb→le (length b) n y));
                  others = others₁;
                  suffix = gone;
                },
              )
              | inr more ↦
                  let shorter : length (drop n b) < f =
                    ground (arith, enough, positive, more, length-drop n b) in
                  let (p, w', ran, ok) = push_lem f w₁ ssl fd (drop n b) shorter in
                  let joined : wire w₁ fd ++ drop n b ≡ wire w fd ++ b =
                    ap (λ z. z ++ drop n b) grown
                    ∙ append_assoc (wire w fd) (take n b) (drop n b)
                    ∙ ap (λ z. wire w fd ++ z) (take-append-drop n b) in
                  (
                    p,
                    w',
                    rw (e, more, push) ran,
                    record {
                      waits = ok.waits;
                      fails = λ h.
                          let (w₀, b₀, failing, at) = ok.fails h in (w₀, b₀, failing, at ∙ joined);
                      whole = λ h. ok.whole h ∙ joined;
                      others = λ other ne. ok.others other ne ∙ others₁ other ne;
                      suffix = (n + ok.suffix.0, ok.suffix.1 ∙ drop-drop n ok.suffix.0 b);
                    },
                  )
            ]
      ]

  pub push_rest_lem :
      (w : W) (ssl : Option S) (fd : ℕ) (b : List ℕ)
      → (p : Pushed) × (w' : W) × (push_rest output w ssl fd b ≡ some (p, w'))
        × IsPush ssl w fd b p w'
  unfolding push_rest
  push_rest_lem w ssl fd [] = (
    all,
    w,
    refl,
    record {
      waits = λ b₀ h. absurd (cc h);
      fails = λ h. absurd (cc h);
      whole = λ h. refl;
      others = λ other ne. refl;
      suffix = (0, refl);
    },
  )
  push_rest_lem w ssl fd (c ∷ cs) = push_lem (suc (length (c ∷ cs))) w ssl fd (c ∷ cs) (omega arith)
