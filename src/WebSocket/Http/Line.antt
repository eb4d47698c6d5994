-- ===== src/WebSocket/Http/Line.antt =====
-- src/websocket.c: lines, words and what is trimmed, where a request or a header is read.
use ios_webkit_debug_proxy.Prelude.{
  ℕ, suc, ◌+◌, Bool, false, ◌||◌, some, List, [], ◌∷◌, ◌++◌, ◌≡◌, ◌≢◌, refl, length, drop, any,
  ◌==◌, arith,
}
use ios_webkit_debug_proxy.Iwdp.Frontend.{begins_with}
use ios_webkit_debug_proxy.WebSocket.Http.{
  find_line, skip_spaces, before_char, from_char, copied, next_word,
}

-- A NUL or a "\r", which ends a line.
abbrev pub is_break : ℕ → Bool
is_break c = c == 0 || c == b'\r'

abbrev pub is_space : ℕ → Bool
is_space c = c == b' '

-- `sep` itself.
abbrev pub is_sep : ℕ → ℕ → Bool
is_sep sep c = c == sep

-- The end of a line and what follows.
abbrev pub end_line : List ℕ → List ℕ
end_line rest = b'\r' ∷ b'\n' ∷ rest

pub find_line-append :
    (s rest : List ℕ) → any is_break s ≡ false → find_line (s ++ end_line rest) ≡ some s
unfolding find_line begins_with
find_line-append [] rest h = refl
find_line-append (c ∷ s) rest h =
    let later = find_line-append s rest (ground (arith, h)) in ground (arith, h, later)

pub drop-newline :
    (c : ℕ) (s rest : List ℕ) → drop (2 + length s) (c ∷ (s ++ end_line rest)) ≡ b'\n' ∷ rest
drop-newline c [] rest = refl
drop-newline c (d ∷ s) rest =
    let n : 2 + length (d ∷ s) ≡ suc (2 + length s) = omega arith in rw n (drop-newline d s rest)

pub drop-line : (c : ℕ) (s rest : List ℕ) → drop (3 + length s) (c ∷ (s ++ end_line rest)) ≡ rest
drop-line c [] rest = refl
drop-line c (d ∷ s) rest =
    let n : 3 + length (d ∷ s) ≡ suc (3 + length s) = omega arith in rw n (drop-line d s rest)

pub before_char-append :
    (sep : ℕ) (s rest : List ℕ)
    → any (is_sep sep) s ≡ false
    → before_char sep (s ++ (sep ∷ rest)) ≡ s
unfolding before_char
before_char-append sep [] rest h = ground arith
before_char-append sep (c ∷ s) rest h =
    let later = before_char-append sep s rest (ground (arith, h)) in ground (arith, h, later)

pub from_char-append :
    (sep : ℕ) (s rest : List ℕ)
    → any (is_sep sep) s ≡ false
    → from_char sep (s ++ (sep ∷ rest)) ≡ sep ∷ rest
unfolding from_char
from_char-append sep [] rest h = ground arith
from_char-append sep (c ∷ s) rest h =
    let later = from_char-append sep s rest (ground (arith, h)) in ground (arith, h, later)

-- At the end of the line.
pub before_char_lem : (sep : ℕ) (s : List ℕ) → any (is_sep sep) s ≡ false → before_char sep s ≡ s
unfolding before_char
before_char_lem sep [] h = refl
before_char_lem sep (c ∷ s) h =
    let later = before_char_lem sep s (ground (arith, h)) in ground (arith, h, later)

pub from_char_lem : (sep : ℕ) (s : List ℕ) → any (is_sep sep) s ≡ false → from_char sep s ≡ []
unfolding from_char
from_char_lem sep [] h = refl
from_char_lem sep (c ∷ s) h =
    let later = from_char_lem sep s (ground (arith, h)) in ground (arith, h, later)

-- Words stand behind any number of spaces.
pub skip_spaces_lem : (c : ℕ) (s : List ℕ) → is_space c ≡ false → skip_spaces (c ∷ s) ≡ c ∷ s
unfolding skip_spaces
skip_spaces_lem c s h = ground (arith, h)

pub copied_lem : (s : List ℕ) → s ≢ [] → copied s ≡ some s
unfolding copied
copied_lem [] ne = absurd (ne refl)
copied_lem (c ∷ s) ne = refl

-- A word, with the space behind it.
pub next_word-append :
    (s rest : List ℕ)
    → s ≢ []
    → any is_space s ≡ false
    → next_word (s ++ (b' ' ∷ rest)) ≡ (some s, b' ' ∷ rest)
unfolding next_word
next_word-append [] rest ne h = absurd (ne refl)
next_word-append (c ∷ s) rest ne h =
    rw (skip_spaces_lem c (s ++ (b' ' ∷ rest)) (ground (arith, h))) (
      rw
        (
          before_char-append b' ' (c ∷ s) rest h,
          from_char-append b' ' (c ∷ s) rest h,
          copied_lem (c ∷ s) ne,
        )
        refl)

-- The last word of a line.
pub next_word_lem : (s : List ℕ) → s ≢ [] → any is_space s ≡ false → next_word s ≡ (some s, [])
unfolding next_word
next_word_lem [] ne h = absurd (ne refl)
next_word_lem (c ∷ s) ne h =
    rw (skip_spaces_lem c s (ground (arith, h))) (
      rw (before_char_lem b' ' (c ∷ s) h, from_char_lem b' ' (c ∷ s) h, copied_lem (c ∷ s) ne) refl)

-- One space before a word is passed over.
pub next_word-space : (s : List ℕ) → next_word (b' ' ∷ s) ≡ next_word s
unfolding next_word skip_spaces
next_word-space s = refl
