-- ===== src/Prelude/TextOrder.antt =====
-- The order of texts is linear.
use Prim.Native.Nat.{ℕ, compare as compare_ℕ, Ordering}
use Prim.Native.Char.{code}
use Prim.Native.String.{String, [], ◌∷◌, compare}
use Prim.Native.String.compare
use mathlib.Core.Path.{◌≡◌, refl}
use mathlib.Core.Bool.{true, false}
use native.Mathlib.Omega.{arith}
use text.Mathlib.TextEquality.{path_by_compare}
use bank_system.Prelude.Text.{str_gtb}

abbrev flip : Ordering → Ordering
flip Ordering.lt = Ordering.gt
flip Ordering.eq = Ordering.eq
flip Ordering.gt = Ordering.lt

flip-compare_ℕ : (m n : ℕ) → compare_ℕ n m ≡ flip (compare_ℕ m n)
flip-compare_ℕ m n = ground arith

flip-compare : (s t : String) → compare t s ≡ flip (compare s t)
flip-compare [] [] = simp (compare.nil-nil)
flip-compare [] (d ∷ t) = simp (compare.nil-cons, compare.cons-nil)
flip-compare (c ∷ s) [] = simp (compare.nil-cons, compare.cons-nil)
flip-compare (c ∷ s) (d ∷ t) =
    rw (compare.cons-cons d c t s, compare.cons-cons c d s t)
      (ground (arith, flip-compare_ℕ (code c) (code d), flip-compare s t))

pub str_gtb_asymm : (s t : String) → str_gtb s t ≡ true → str_gtb t s ≡ false
str_gtb_asymm s t h = ground (arith, flip-compare s t)

pub str_gtb_total : (s t : String) → str_gtb s t ≡ false → str_gtb t s ≡ false → s ≡ t
str_gtb_total s t h k = path_by_compare s t (ground (arith, flip-compare s t))

nothing_less : (t : String) → str_gtb [] t ≡ false
nothing_less [] = refl
nothing_less (d ∷ t) = ground (arith, compare.nil-cons d t)

pub str_gtb_trans : (s t u : String) → str_gtb s t ≡ true → str_gtb t u ≡ true → str_gtb s u ≡ true
str_gtb_trans [] t u h k = absurd (ground (arith, nothing_less t))
str_gtb_trans (c ∷ s) [] u h k = absurd (ground (arith, nothing_less u))
str_gtb_trans (c ∷ s) (d ∷ t) [] h k = ground (arith, compare.cons-nil c s)
str_gtb_trans (c ∷ s) (d ∷ t) (e ∷ u) h k = ground (
  arith,
  compare.cons-cons c e s u,
  compare.cons-cons c d s t,
  compare.cons-cons d e t u,
  str_gtb_trans s t u,
)
