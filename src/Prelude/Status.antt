-- ===== src/Prelude/Status.antt =====
-- The status codes of the C functions: 0, and -1 or 1 for a failure.
use mathlib.Core.Path.{◌≡◌, refl}
use mathlib.Core.Logic.{◌⊎◌, inl, inr}

pub data Status : Type 0 where
  success error : Status

pub Status-cases : (s : Status) → (s ≡ success) ⊎ (s ≡ error)
Status-cases success = inl refl
Status-cases error = inr refl
