-- ===== src/WebSocket/Http/Total.antt =====
-- src/websocket.c: the loop over the headers ends.
use ios_webkit_debug_proxy.Prelude.{
  ℕ, zero, suc, ◌+◌, ◌<◌, ◌≤◌, true, false, Option, some, none, List, [], ◌∷◌, ◌++◌, ◌≡◌, ◌⊎◌, refl,
  ◌∙◌, length, drop, any, ◌==◌, arith, inl, inr, Bool-cases, Option-cases, length-drop, any-append,
}
use ios_webkit_debug_proxy.Prelude.Status.{Status, success, error}
use ios_webkit_debug_proxy.WebSocket.Http.{
  Http, Reading, crlf, find_line, before_char, from_char, header_value, to_nul, drop_last_spaces,
  skip_spaces, on_header, conclude, read_http_header, read_headers_loop, read_headers,
}
use ios_webkit_debug_proxy.Iwdp.Frontend.{begins_with}
use ios_webkit_debug_proxy.WebSocket.Http.Line.{is_sep}

to_nul_total : (s : List ℕ) → any (is_sep 0) s ≡ true → (t : List ℕ) × (to_nul s ≡ some t)
unfolding to_nul
to_nul_total [] h = cc h
to_nul_total (c ∷ s) h = elim (Bool-cases (c == 0)) [
  | inl e ↦ ([], rw e refl)
  | inr e ↦ let (t, later) = to_nul_total s (ground (arith, h, e)) in (c ∷ t, rw (e, later) refl)
]

header_value_total :
    (s behind : List ℕ)
    → any (is_sep 0) behind ≡ true
    → (v : List ℕ) × (header_value s behind ≡ some v)
unfolding header_value
header_value_total [] behind h = to_nul_total behind h
header_value_total (c ∷ s) behind h = (drop_last_spaces (skip_spaces s), refl)

begins_with_bound : (t s : List ℕ) → begins_with t s ≡ true → length t ≤ length s
unfolding begins_with
begins_with_bound [] s h = omega arith
begins_with_bound (c ∷ t) [] h = cc h
begins_with_bound (c ∷ t) (d ∷ s) h =
    let later = begins_with_bound t s (ground (arith, h)) in omega (arith, later)

-- The text of a header's line is three bytes or more shorter than the input.
find_line_bound : (s line : List ℕ) → find_line s ≡ some line → 2 + length line ≤ length s
unfolding find_line begins_with
find_line_bound [] line h = cc h
find_line_bound (c ∷ s) line h = elim (Bool-cases (c == 0)) [
  | inl z ↦ ground (arith, h, z)
  | inr z ↦ elim (Bool-cases (begins_with crlf (c ∷ s))) [
    | inl b ↦
        let longer = begins_with_bound crlf (c ∷ s) b in
        let same : some [] ≡ some line = ground (arith, h, z, b) in ground (arith, same, longer)
    | inr b ↦ elim (Option-cases (find_line s)) [
      | inl e ↦ ground (arith, h, z, b, e)
      | inr (t, e) ↦
          let later = find_line_bound s t e in
          let same : some (c ∷ t) ≡ some line = ground (arith, h, z, b, e) in
          ground (arith, same, later)
    ]
  ]
]

-- Either the loop ends with what is answered, or the input is shorter.
abbrev Answers : List ℕ → Option (Status × Option (List ℕ × List ℕ) × List ℕ) → Type 0
Answers input answer =
    ((st : Status) × (input' : List ℕ) × (answer ≡ some (st, none, input')))
    ⊎ ((key val input' : List ℕ) × (answer ≡ some (success, some (key, val), input'))
        × (length input' < length input))

line-Answers :
    (beyond input line : List ℕ)
    → any (is_sep 0) beyond ≡ true
    → find_line input ≡ some line
    → Answers input (read_http_header beyond input)
unfolding read_http_header
line-Answers beyond input [] nul e = inl (success, drop 2 input, rw (e, read_http_header) refl)
line-Answers beyond input (c ∷ line) nul e =
    let behind = drop (2 + length line) input ++ beyond in
    let has_nul : any (is_sep 0) behind ≡ true =
      any-append (is_sep 0) (drop (2 + length line) input) beyond ∙ ground (arith, nul) in
    let (v, value) = header_value_total (from_char b':' line) behind has_nul in
    let bound = find_line_bound input (c ∷ line) e in
    let less = length-drop (3 + length line) input in
    elim (Bool-cases (c == b' ')) [
      | inl space ↦ inl (error, input, rw (e, read_http_header) (rw space refl))
      | inr word ↦ inr (
        c ∷ before_char b':' line,
        v,
        drop (3 + length line) input,
        rw (e, read_http_header) (rw word (rw value refl)),
        omega (arith, bound, less),
      )
    ]

read_http_header-Answers :
    (beyond input : List ℕ)
    → any (is_sep 0) beyond ≡ true
    → Answers input (read_http_header beyond input)
unfolding read_http_header
read_http_header-Answers beyond input nul = elim (Option-cases (find_line input)) [
  | inl e ↦ inl (error, input, rw (e, read_http_header) refl)
  | inr (line, e) ↦ line-Answers beyond input line nul e
]

module _ (strtol : List ℕ → ℕ) where
  read_headers_loop_total :
      (fuel : ℕ) (beyond : List ℕ) (r : Reading) (input : List ℕ)
      → any (is_sep 0) beyond ≡ true
      → length input < fuel
      → (my' : Http) × (input' : List ℕ) × (read_headers_loop strtol fuel beyond r input
          ≡ some (success, my', input'))
  unfolding read_headers_loop
  read_headers_loop_total zero beyond r input nul lt = absurd (omega (arith, lt))
  read_headers_loop_total (suc fuel) beyond r input nul lt =
      elim (read_http_header-Answers beyond input nul) [
        | inl (success, input', e) ↦ (conclude strtol r, input', rw (e, read_headers_loop) refl)
        | inl (error, input', e) ↦ (conclude strtol r, input', rw (e, read_headers_loop) refl)
        | inr (key, val, input', e, less) ↦
            let (my', rest, later) =
              read_headers_loop_total fuel beyond (on_header strtol key val r) input' nul
                (omega (arith, lt, less)) in
            (my', rest, rw (e, read_headers_loop) later)
      ]

  -- Whatever the input is, if a NUL stands behind it in its block, ws_read_headers returns and succeeds.
  pub read_headers_total :
      (beyond : List ℕ) (my : Http) (input : List ℕ)
      → any (is_sep 0) beyond ≡ true
      → (my' : Http) × (input' : List ℕ) × (read_headers strtol beyond my input
          ≡ some (success, my', input'))
  unfolding read_headers
  read_headers_total beyond my input nul =
      let r : Reading = record { is_connection = false; is_upgrade = false; my = my } in
      read_headers_loop_total (suc (length input)) beyond r input nul (omega arith)
