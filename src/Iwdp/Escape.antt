-- ===== src/Iwdp/Escape.antt =====
-- src/ios_webkit_debug_proxy.c: strings in the JSON that is served.
--
-- A string is the bytes before its NUL; `char` is signed, so that a byte from 128 on is negative.
pub mod Laws
use ios_webkit_debug_proxy.Prelude.{
  ℕ, ◌+◌, ◌/◌, ◌%◌, ◌||◌, List, [], ◌∷◌, ◌++◌, ltb, ◌==◌, if◌then◌else◌, codes,
}

-- `%04d` for a number below 100.
unfoldable pub four_digits : ℕ → List ℕ
four_digits n = b'0' ∷ b'0' ∷ (b'0' + n / 10) ∷ (b'0' + n % 10) ∷ []

-- What stands for one character.
unfoldable pub escape_char : ℕ → List ℕ
unfolding four_digits
escape_char c =
    if ltb c 32
    then codes "\\u" ++ four_digits c
    else (if c == b'"' || c == b'\\' then b'\\' ∷ c ∷ [] else c ∷ [])

-- `iwdp_escape_json_string_val`
unfoldable pub escape_json_string_val : List ℕ → List ℕ
unfolding escape_char
escape_json_string_val [] = []
escape_json_string_val (c ∷ s) = escape_char c ++ escape_json_string_val s
