-- ===== src/Prelude/Texts.antt =====
-- Whole texts: the native `String`, for keys and names that a program only compares, and the codes
-- of its characters, for those that it takes apart.
use Prim.Native.Nat.{ℕ}
use Prim.Native.Char.{code}
use Prim.Native.String.{String}
use mathlib.Core.List.{List, [], ◌∷◌}
use text.Mathlib.Text.{◌==◌}
use text.Mathlib.TextEquality.{eq_iff}
use text.Mathlib.TextPositions.{eq_refl}
use mathlib.Core.Path.{◌≡◌}
use mathlib.Core.Logic.{◌↔◌, ◌≢◌}
use mathlib.Core.Bool.{Bool, true, false}

-- Whether `strcmp` answers 0.
abbrev pub equal_texts : String → String → Bool
equal_texts s t = s == t

pub equal_texts_iff : (s t : String) → (equal_texts s t ≡ true) ↔ (s ≡ t)
equal_texts_iff s t = eq_iff s t

pub equal_texts_refl : (s : String) → equal_texts s s ≡ true
equal_texts_refl s = eq_refl s

-- For texts that are written out, by `refl`.
pub texts-ne : (s t : String) → equal_texts s t ≡ false → s ≢ t
texts-ne s t h e = absurd (cc (h, (equal_texts_iff s t).1 e))

-- The bytes of a text that is written out in ASCII.
abbrev pub codes : String → List ℕ
codes String.[] = []
codes (String.◌∷◌ c s) = code c ∷ codes s
