-- ===== src/WebSocket/Http/Names.antt =====
-- src/websocket.c: which field a header sets.
use ios_webkit_debug_proxy.Prelude.{
  ℕ, Bool, true, false, ◌&&◌, some, List, [], ◌∷◌, ◌≡◌, refl, ap, ap₂, ◌∙◌, codes, if◌then◌else◌,
  ◌==◌, arith, inl, inr, Bool-cases,
}
use ios_webkit_debug_proxy.PortConfig.{to_lower, equal_ignoring_case}
use ios_webkit_debug_proxy.WebSocket.Http.{Reading, contains_ignoring_case, without_port, on_header}

both : (m n : ℕ) (b : Bool) → (m == n) && b ≡ true → (m ≡ n) × (b ≡ true)
both m n b h = (ground (arith, h), ground (arith, h))

-- Two texts that a text equals are equal.
equal_ignoring_case_unique :
    (key s t : List ℕ)
    → equal_ignoring_case key s ≡ true
    → equal_ignoring_case key t ≡ equal_ignoring_case s t
unfolding equal_ignoring_case
equal_ignoring_case_unique [] [] t h = refl
equal_ignoring_case_unique [] (d ∷ s) t h = cc h
equal_ignoring_case_unique (c ∷ key) [] t h = cc h
equal_ignoring_case_unique (c ∷ key) (d ∷ s) [] h = refl
equal_ignoring_case_unique (c ∷ key) (d ∷ s) (e ∷ t) h =
    let (same, rest) = both (to_lower c) (to_lower d) (equal_ignoring_case key s) h in
    ap₂ ◌&&◌ (ap (λ n. n == to_lower e) same) (equal_ignoring_case_unique key s t rest)

other :
    (key s t : List ℕ)
    → equal_ignoring_case key s ≡ true
    → equal_ignoring_case s t ≡ false
    → equal_ignoring_case key t ≡ false
other key s t e ne = equal_ignoring_case_unique key s t e ∙ ne

module _ (strtol : List ℕ → ℕ) where
  -- The fields that one header sets.
  abbrev pub set_fields : List ℕ → List ℕ → Reading → Reading
  set_fields key val r = record {
    is_connection =
        if equal_ignoring_case key (codes "Connection")
        then contains_ignoring_case val (codes "Upgrade")
        else r.is_connection;
    is_upgrade =
        if equal_ignoring_case key (codes "Upgrade")
        then equal_ignoring_case val (codes "WebSocket")
        else r.is_upgrade;
    my = record r.my {
      protocol =
          if equal_ignoring_case key (codes "Sec-WebSocket-Protocol")
          then some val
          else r.my.protocol;
      version =
          if equal_ignoring_case key (codes "Sec-WebSocket-Version")
          then strtol val
          else r.my.version;
      sec_key =
          if equal_ignoring_case key (codes "Sec-WebSocket-Key") then some val else r.my.sec_key;
      req_host =
          if equal_ignoring_case key (codes "Host") then some (without_port val) else r.my.req_host;
    };
  }

  pub on_header_lem :
      (key val : List ℕ) (r : Reading) → on_header strtol key val r ≡ set_fields key val r
  unfolding on_header equal_ignoring_case
  on_header_lem key val r = elim (Bool-cases (equal_ignoring_case key (codes "Connection"))) [
    | inl e ↦
        rw
          (
            e,
            other key (codes "Connection") (codes "Upgrade") e refl,
            other key (codes "Connection") (codes "Sec-WebSocket-Protocol") e refl,
            other key (codes "Connection") (codes "Sec-WebSocket-Version") e refl,
            other key (codes "Connection") (codes "Sec-WebSocket-Key") e refl,
            other key (codes "Connection") (codes "Host") e refl,
          )
          refl
    | inr n0 ↦ elim (Bool-cases (equal_ignoring_case key (codes "Upgrade"))) [
      | inl e ↦
          rw
            (
              e,
              n0,
              other key (codes "Upgrade") (codes "Sec-WebSocket-Protocol") e refl,
              other key (codes "Upgrade") (codes "Sec-WebSocket-Version") e refl,
              other key (codes "Upgrade") (codes "Sec-WebSocket-Key") e refl,
              other key (codes "Upgrade") (codes "Host") e refl,
            )
            refl
      | inr n1 ↦ elim (Bool-cases (equal_ignoring_case key (codes "Sec-WebSocket-Protocol"))) [
        | inl e ↦
            rw
              (
                e,
                n0,
                n1,
                other key (codes "Sec-WebSocket-Protocol") (codes "Sec-WebSocket-Version") e refl,
                other key (codes "Sec-WebSocket-Protocol") (codes "Sec-WebSocket-Key") e refl,
                other key (codes "Sec-WebSocket-Protocol") (codes "Host") e refl,
              )
              refl
        | inr n2 ↦ elim (Bool-cases (equal_ignoring_case key (codes "Sec-WebSocket-Version"))) [
          | inl e ↦
              rw
                (
                  e,
                  n0,
                  n1,
                  n2,
                  other key (codes "Sec-WebSocket-Version") (codes "Sec-WebSocket-Key") e refl,
                  other key (codes "Sec-WebSocket-Version") (codes "Host") e refl,
                )
                refl
          | inr n3 ↦ elim (Bool-cases (equal_ignoring_case key (codes "Sec-WebSocket-Key"))) [
            | inl e ↦
                rw (e, n0, n1, n2, n3, other key (codes "Sec-WebSocket-Key") (codes "Host") e refl)
                  refl
            | inr n4 ↦ elim (Bool-cases (equal_ignoring_case key (codes "Host"))) [
              | inl e ↦ rw (e, n0, n1, n2, n3, n4) refl
              | inr n5 ↦ rw (n0, n1, n2, n3, n4, n5) refl
            ]
          ]
        ]
      ]
    ]
  ]
