-- ===== src/Iwdp/Escape/Laws.antt =====
-- src/ios_webkit_debug_proxy.c: what an escaped string stands for in JSON.
use ios_webkit_debug_proxy.Prelude.{
  ℕ, ◌+◌, ◌-◌, ◌*◌, ◌<◌, ◌≤◌, ◌≡◌, ◌≢◌, ◌⊎◌, length, length-append, ◌&&◌, Option, some, none, List,
  [], ◌∷◌, ◌++◌, arith, leb, if◌then◌else◌,
}
use ios_webkit_debug_proxy.Iwdp.Escape.{escape_char, escape_json_string_val}

-- The value of a hexadecimal digit.
abbrev pub hex_value : ℕ → Option ℕ
hex_value h =
    if leb b'0' h && leb h b'9'
    then some (h - b'0')
    else (if leb b'a' h && leb h b'f'
        then some (h - 87)
        else (if leb b'A' h && leb h b'F' then some (h - 55) else none))

-- Four digits behind "\u".
pub record IsUnicode (p : List ℕ) (v : ℕ) : Type 0 where
  pub h0 : ℕ
  pub h1 : ℕ
  pub h2 : ℕ
  pub h3 : ℕ
  pub d0 : ℕ
  pub d1 : ℕ
  pub d2 : ℕ
  pub d3 : ℕ
  pub piece : p ≡ b'\\' ∷ b'u' ∷ h0 ∷ h1 ∷ h2 ∷ h3 ∷ []
  pub value0 : hex_value h0 ≡ some d0
  pub value1 : hex_value h1 ≡ some d1
  pub value2 : hex_value h2 ≡ some d2
  pub value3 : hex_value h3 ≡ some d3
  pub is_value : v ≡ d0 * 4096 + d1 * 256 + d2 * 16 + d3

-- What may stand for the byte `v` between the quotes of a JSON string: the byte itself, a quote or a
-- backslash behind a backslash, or four digits behind "\u".
abbrev IsPlain : List ℕ → ℕ → Type 0
IsPlain p v = (p ≡ v ∷ []) × (32 ≤ v) × (v ≢ b'"') × (v ≢ b'\\')

abbrev IsEscaped : List ℕ → ℕ → Type 0
IsEscaped p v = (p ≡ b'\\' ∷ v ∷ []) × ((v ≡ b'"') ⊎ (v ≡ b'\\'))

abbrev pub IsChar : List ℕ → ℕ → Type 0
IsChar p v = IsPlain p v ⊎ (IsEscaped p v ⊎ IsUnicode p v)

-- The text between the quotes stands for these bytes.
abbrev pub Denotes : List ℕ → List ℕ → Type 0
Denotes text [] = text ≡ []
Denotes text (v ∷ vs) =
    (p : List ℕ) × (rest : List ℕ) × (text ≡ p ++ rest) × IsChar p v × Denotes rest vs

-- No character of 10 to 31.
abbrev pub IsPrintable : List ℕ → Type 0
IsPrintable [] = Unit {0}
IsPrintable (c ∷ s) = ((c < 10) ⊎ (32 ≤ c)) × IsPrintable s

-- The block that is allocated holds the escaped string and its NUL.
pub length-escape_json_string_val :
    (s : List ℕ) → length (escape_json_string_val s) + 1 ≤ 6 * length s + 1
unfolding escape_json_string_val escape_char
length-escape_json_string_val [] = omega arith
length-escape_json_string_val (c ∷ s) =
    let step : length (escape_char c) ≤ 6 = ground arith in
    omega (
      arith,
      step,
      length-append (escape_char c) (escape_json_string_val s),
      length-escape_json_string_val s,
    )
