-- ===== src/Prelude/Text.antt =====
-- Tests on texts.
use Prim.Native.Nat.{ℕ, zero, suc, Ordering}
use Prim.Native.String.{String, compare}
use mathlib.Core.Bool.{Bool, true, false}
pub use text.Mathlib.Text.{◌==◌ as str_eq}
pub use text.Mathlib.TextEquality.{eq_iff as str_eq_iff}
pub use text.Mathlib.TextPositions.{eq_refl as str_eq_refl}
pub use Prim.Native.String.{◌++◌ as str_append}

-- Go's `s > t` on strings.
abbrev pub str_gtb : String → String → Bool
str_gtb s t = elim (compare s t) [ Ordering.gt ↦ true | _ ↦ false ]

-- The number of code points.
abbrev pub text_length : String → ℕ
text_length String.[] = 0
text_length (String.◌∷◌ c s) = suc (text_length s)

-- The first code points of a text.
abbrev pub text_take : ℕ → String → String
text_take zero s = ""
text_take (suc n) String.[] = ""
text_take (suc n) (String.◌∷◌ c s) = String.◌∷◌ c (text_take n s)
