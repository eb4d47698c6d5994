-- ===== src/Rpc/Receive/Trim/Laws.antt =====
-- src/rpc.c: `rpc_args_to_xml` on a document of one property list.
use ios_webkit_debug_proxy.Prelude.{
  ℕ, zero, suc, ◌+◌, ◌-◌, ◌<◌, ◌≤◌, ℕ_discrete, ◌≡◌, ◌≢◌, ◌⊎◌, inl, inr, refl, ◌∙◌, true, some,
  List, [], ◌∷◌, ◌++◌, length, length-append, append_assoc, subst, take, drop, replicate, get_or,
  leb, arith, take-length-append, drop-length-append,
}
use ios_webkit_debug_proxy.HashTable.Keys.{equal_strings}
use ios_webkit_debug_proxy.Rpc.Receive.Trim.{
  start_tag, end_tag, find_start, behind_bracket, skip_newlines, tail_of, cut, trim,
}

-- No character of the text is '>'.
pub data HasNoBracket : List ℕ → Type 0 where
  empty : HasNoBracket []
  cons : {c : ℕ} {s : List ℕ} → c ≢ 62 → HasNoBracket s → HasNoBracket (c ∷ s)

behind_bracket-append :
    {t : List ℕ} (s : List ℕ) → HasNoBracket t → behind_bracket (t ++ (62 ∷ s)) ≡ some s
unfolding behind_bracket
behind_bracket-append s empty = refl
behind_bracket-append s (cons {c = c} ne h) = ground (arith, behind_bracket-append s h)

skip_newlines-replicate :
    (n b : ℕ) (s : List ℕ) → b ≢ 10 → skip_newlines (replicate n 10 ++ (b ∷ s)) ≡ b ∷ s
unfolding skip_newlines
skip_newlines-replicate zero b s h = ground arith
skip_newlines-replicate (suc n) b s h = skip_newlines-replicate n b s h

-- What the tail goes back over: a NUL or a newline.
abbrev IsBlank : ℕ → Type 0
IsBlank c = (c ≡ 0) ⊎ (c ≡ 10)

get_or-replicate-IsBlank : (m i : ℕ) → IsBlank (get_or (replicate m 10) i 0)
get_or-replicate-IsBlank zero i = inl refl
get_or-replicate-IsBlank (suc m) zero = inr refl
get_or-replicate-IsBlank (suc m) (suc i) = get_or-replicate-IsBlank m i

behind-IsBlank :
    (t : List ℕ) (c m i : ℕ) → length t < i → IsBlank (get_or (t ++ (c ∷ replicate m 10)) i 0)
behind-IsBlank [] c m zero h = absurd (omega (arith, h))
behind-IsBlank [] c m (suc i) h = get_or-replicate-IsBlank m i
behind-IsBlank (x ∷ t) c m zero h = absurd (omega (arith, h))
behind-IsBlank (x ∷ t) c m (suc i) h = behind-IsBlank t c m i (omega (arith, h))

get_or-length : (t u : List ℕ) (c : ℕ) → get_or (t ++ (c ∷ u)) (length t) 0 ≡ c
get_or-length [] u c = refl
get_or-length (x ∷ t) u c = get_or-length t u c

tail_of_lem :
    (s : List ℕ) (tail : ℕ)
    → ¬ IsBlank (get_or s tail 0)
    → ((i : ℕ) → tail < i → IsBlank (get_or s i 0))
    → (n : ℕ) → tail ≤ n
    → tail_of n s ≡ tail
unfolding tail_of
tail_of_lem s tail at_tail behind zero h = omega (arith, h)
tail_of_lem s tail at_tail behind (suc n) h = elim (ℕ_discrete tail (suc n)) [
  | yes e ↦
      let here : ¬ IsBlank (get_or s (suc n) 0) =
        subst (λ (i : ℕ). ¬ IsBlank (get_or s i 0)) e at_tail in
      ground (
        arith,
        e,
        λ (q : get_or s (suc n) 0 ≡ 0). here (inl q),
        λ (q : get_or s (suc n) 0 ≡ 10). here (inr q),
      )
  | no ne ↦ elim (behind (suc n) (omega (arith, h, ne))) [
    | inl z ↦ rw z (tail_of_lem s tail at_tail behind n (omega (arith, h, ne)))
    | inr z ↦ rw z (tail_of_lem s tail at_tail behind n (omega (arith, h, ne)))
  ]
]

-- The text behind the start tag.
abbrev pub inner : List ℕ → ℕ → ℕ → List ℕ
inner body c m = body ++ (c ∷ (end_tag ++ replicate m 10))

inner-tail :
    (body : List ℕ) (c m : ℕ) → tail_of (length (inner body c m)) (inner body c m) ≡ length body + 8
inner-tail body c m =
    let t = body ++ (c ∷ take 7 end_tag) in
    let whole : t ++ (62 ∷ replicate m 10) ≡ inner body c m =
      append_assoc body (c ∷ take 7 end_tag) (62 ∷ replicate m 10) in
    let sized : length t ≡ length body + 8 =
      omega (arith, length-append body (c ∷ take 7 end_tag)) in
    let fits : length t ≤ length (t ++ (62 ∷ replicate m 10)) =
      omega (arith, length-append t (62 ∷ replicate m 10)) in
    let at_end = get_or-length t (replicate m 10) 62 in
    rw (← whole) (
      tail_of_lem (t ++ (62 ∷ replicate m 10)) (length t)
        (λ q. elim q [
          | inl z ↦ absurd (omega (arith, z, at_end))
          | inr z ↦ absurd (omega (arith, z, at_end))
        ])
        (behind-IsBlank t 62 m) (length (t ++ (62 ∷ replicate m 10))) fits
      ∙ sized)

cut-inner : (body : List ℕ) (c m : ℕ) → cut (inner body c m) ≡ some body
unfolding cut equal_strings
cut-inner body c m =
    let enough : leb 8 (length body + 8) ≡ true = ground arith in
    let behind : drop (length body + 8 - 7) (inner body c m) ≡ end_tag ++ replicate m 10 =
      let at : length body + 8 - 7 ≡ length (body ++ (c ∷ [])) =
        omega (arith, length-append body (c ∷ [])) in
      rw (at, ← append_assoc body (c ∷ []) (end_tag ++ replicate m 10))
        (drop-length-append (body ++ (c ∷ [])) (end_tag ++ replicate m 10)) in
    let before : take (length body + 8 - 8) (inner body c m) ≡ body =
      let at : length body + 8 - 8 ≡ length body = omega arith in
      rw at (take-length-append body (c ∷ (end_tag ++ replicate m 10))) in
    rw (inner-tail body c m, enough, behind, before) refl

-- A document of a start tag, `body`, one character, an end tag and newlines is trimmed to `body`, if
-- `body` is not empty and does not begin with a newline, the start tag is the first place where the
-- document has "<plist", and there is no '>' in the start tag before its end.
pub trim-document :
    (xml attrs bs : List ℕ) (b c n m : ℕ)
    → HasNoBracket attrs
    → b ≢ 10
    → find_start xml ≡ some (start_tag ++ (attrs ++ (62 ∷ (replicate n 10 ++ inner (b ∷ bs) c m))))
    → trim xml ≡ b ∷ bs
unfolding trim
trim-document xml attrs bs b c n m attrs_end start found =
    let s = replicate n 10 ++ inner (b ∷ bs) c m in
    let all : HasNoBracket (start_tag ++ attrs) = cons (omega arith) (
      cons (omega arith) (
        cons (omega arith)
          (cons (omega arith) (cons (omega arith) (cons (omega arith) attrs_end))))) in
    rw
      (
        found,
        behind_bracket-append s all,
        skip_newlines-replicate n b (bs ++ (c ∷ (end_tag ++ replicate m 10))) start,
        cut-inner (b ∷ bs) c m,
        trim,
      )
      refl
