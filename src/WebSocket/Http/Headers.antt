-- ===== src/WebSocket/Http/Headers.antt =====
-- src/websocket.c: one header.
use ios_webkit_debug_proxy.Prelude.{
  ℕ, false, some, none, List, [], ◌∷◌, ◌++◌, ◌≡◌, refl, ◌∙◌, any, arith, any-append, inl, inr,
  Option-cases,
}
use ios_webkit_debug_proxy.Prelude.Status.{success}
use ios_webkit_debug_proxy.WebSocket.Http.{
  before_char, from_char, header_value, to_nul, drop_last_spaces, skip_spaces, read_http_header,
}
use ios_webkit_debug_proxy.WebSocket.Http.Line.{
  is_break, is_space, is_sep, end_line, find_line-append, drop-newline, drop-line,
  before_char-append, from_char-append, from_char_lem,
}

-- A name without ':' (but perhaps in the first place, where it is not looked for) that does not
-- begin with a space, and a value that a space neither begins nor ends.
pub record IsHeader (first : ℕ) (name val : List ℕ) : Type 0 where
  pub no_break_in_name : any is_break (first ∷ name) ≡ false
  pub no_break_in_val : any is_break val ≡ false
  pub no_space : is_space first ≡ false
  pub no_colon : any (is_sep b':') name ≡ false
  pub is_trimmed : drop_last_spaces (skip_spaces val) ≡ val

-- A header as a line has it, without its first character.
abbrev pub header_tail : List ℕ → List ℕ → List ℕ
header_tail name val = name ++ (b':' ∷ b' ' ∷ val)

to_nul_lem : (s : List ℕ) → any (is_sep 0) s ≡ false → to_nul s ≡ none
unfolding to_nul
to_nul_lem [] h = refl
to_nul_lem (c ∷ s) h = let later = to_nul_lem s (ground (arith, h)) in ground (arith, h, later)

-- What is answered for a line that does not begin with a space.
read_http_header-line :
    (beyond : List ℕ) (first : ℕ) (line rest : List ℕ)
    → any is_break (first ∷ line) ≡ false
    → is_space first ≡ false
    → read_http_header beyond (first ∷ (line ++ end_line rest))
      ≡ (elim (header_value (from_char b':' line) ((b'\n' ∷ rest) ++ beyond)) [
        | none ↦ none
        | some v ↦ some (success, some (first ∷ before_char b':' line, v), rest)
      ])
unfolding read_http_header
read_http_header-line beyond first line rest no_break no_space =
    let val = header_value (from_char b':' line) ((b'\n' ∷ rest) ++ beyond) in
    rw (find_line-append (first ∷ line) rest no_break, read_http_header)
      (rw no_space (
        rw (drop-newline first line rest) (elim (Option-cases val) [
          | inl e ↦ rw e refl
          | inr (v, e) ↦ rw e (rw (drop-line first line rest) refl)
        ])))

pub read_http_header-header :
    (beyond : List ℕ) (first : ℕ) (name val rest : List ℕ)
    → IsHeader first name val
    → read_http_header beyond (first ∷ (header_tail name val ++ end_line rest))
      ≡ some (success, some (first ∷ name, val), rest)
unfolding header_value skip_spaces
read_http_header-header beyond first name val rest h =
    let line = header_tail name val in
    let no_break : any is_break (first ∷ line) ≡ false =
      rw (any-append is_break name (b':' ∷ b' ' ∷ val))
        (ground (arith, h.no_break_in_name, h.no_break_in_val)) in
    read_http_header-line beyond first line rest no_break h.no_space
    ∙ rw (from_char-append b':' name (b' ' ∷ val) h.no_colon)
        (rw h.is_trimmed (rw (before_char-append b':' name (b' ' ∷ val) h.no_colon) refl))

-- If a line has no ':' behind its first character, no NUL comes after the line in the block, and the
-- line does not begin with a space and has no NUL and no "\r" in it, then ws_read_http_header reads
-- behind the block.
pub read_http_header-no_colon :
    (beyond : List ℕ) (first : ℕ) (name rest : List ℕ)
    → any is_break (first ∷ name) ≡ false
    → is_space first ≡ false
    → any (is_sep b':') name ≡ false
    → any (is_sep 0) (rest ++ beyond) ≡ false
    → read_http_header beyond (first ∷ (name ++ end_line rest)) ≡ none
unfolding header_value
read_http_header-no_colon beyond first name rest no_break no_space no_colon no_nul =
    read_http_header-line beyond first name rest no_break no_space
    ∙ rw (from_char_lem b':' name no_colon) (rw (to_nul_lem (b'\n' ∷ (rest ++ beyond)) no_nul) refl)
