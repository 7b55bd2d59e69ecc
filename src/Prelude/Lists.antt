-- ===== src/Prelude/Lists.antt =====
-- Lists measured by native numbers, Boolean search, and predicates on every element.
use Prim.Native.Nat.{ℕ, zero, suc, ◌+◌}
use mathlib.Core.Path.{◌≡◌, refl}
use mathlib.Core.Bool.{Bool, false, ◌||◌}
use mathlib.Core.List.{List, [], ◌∷◌, ◌++◌}
use mathlib.Core.Option.{Option, none, some}
use native.Mathlib.Omega.{arith}
use bank_system.Prelude.Bools.{◌==◌, if◌then◌else◌}

module _ {ℓ} {A : Type ℓ} where
  abbrev pub length : List A → ℕ
  length [] = 0
  length (x ∷ xs) = suc (length xs)

  -- The first element that passes a test.
  abbrev pub find : (A → Bool) → List A → Option A
  find p [] = none
  find p (x ∷ xs) = if p x then some x else find p xs

  abbrev pub any : (A → Bool) → List A → Bool
  any p [] = false
  any p (x ∷ xs) = p x || any p xs

  abbrev pub filter : (A → Bool) → List A → List A
  filter p [] = []
  filter p (x ∷ xs) = let rest = filter p xs in if p x then x ∷ rest else rest

  abbrev pub get_elem? : List A → ℕ → Option A
  get_elem? [] i = none
  get_elem? (x ∷ xs) zero = some x
  get_elem? (x ∷ xs) (suc i) = get_elem? xs i

  abbrev pub take : ℕ → List A → List A
  take zero xs = []
  take (suc n) [] = []
  take (suc n) (x ∷ xs) = x ∷ take n xs

  abbrev pub drop : ℕ → List A → List A
  drop zero xs = xs
  drop (suc n) [] = []
  drop (suc n) (x ∷ xs) = drop n xs

  -- The sum of a measure over the elements.
  abbrev pub total : (A → ℕ) → List A → ℕ
  total f [] = 0
  total f (x ∷ xs) = f x + total f xs

  pub total-append : (f : A → ℕ) (xs ys : List A) → total f (xs ++ ys) ≡ total f xs + total f ys
  total-append f [] ys = omega arith
  total-append f (x ∷ xs) ys = omega (arith, total-append f xs ys)

  pub length-append : (xs ys : List A) → length (xs ++ ys) ≡ length xs + length ys
  length-append [] ys = omega arith
  length-append (x ∷ xs) ys = omega (arith, length-append xs ys)

module _ {ℓ κ} {A : Type ℓ} (P : A → Type κ) where
  abbrev pub All : List A → Type κ
  All [] = Unit
  All (x ∷ xs) = P x × All xs

  pub All-append : (xs ys : List A) → All xs → All ys → All (xs ++ ys)
  All-append [] ys hx hy = hy
  All-append (x ∷ xs) ys (h, hx) hy = (h, All-append xs ys hx hy)

module _ {ℓ} {A : Type ℓ} where
  pub any-append : (p : A → Bool) (xs ys : List A) → any p (xs ++ ys) ≡ (any p xs || any p ys)
  any-append p [] ys = refl
  any-append p (x ∷ xs) ys = ground (arith, any-append p xs ys)

  pub filter-append :
      (p : A → Bool) (xs ys : List A) → filter p (xs ++ ys) ≡ filter p xs ++ filter p ys
  filter-append p [] ys = refl
  filter-append p (x ∷ xs) ys = ground (arith, filter-append p xs ys)

  -- No two elements have the same number.
  abbrev pub Distinct : (A → ℕ) → List A → Type 0
  Distinct f [] = Unit
  Distinct f (x ∷ xs) = (any (λ y. f y == f x) xs ≡ false) × Distinct f xs

  pub Distinct-snoc :
      (f : A → ℕ) (xs : List A) (x : A)
      → Distinct f xs
      → any (λ y. f y == f x) xs ≡ false
      → Distinct f (xs ++ x ∷ [])
  Distinct-snoc f [] x h e = (refl, tt)
  Distinct-snoc f (y ∷ xs) x (h, hs) e = (
    rw (any-append (λ z. f z == f y) xs (x ∷ [])) (ground arith),
    Distinct-snoc f xs x hs (ground arith),
  )

module _ {ℓ κ μ} {A : Type ℓ} (P : A → Type κ) (Q : A → Type μ) where
  pub All-imp : (xs : List A) → ((x : A) → P x → Q x) → All P xs → All Q xs
  All-imp [] k h = tt
  All-imp (x ∷ xs) k (h, hs) = (k x h, All-imp xs k hs)

  -- The same, where the elements are known not to pass a test.
  pub All-imp_unless :
      (p : A → Bool) (xs : List A)
      → any p xs ≡ false
      → ((x : A) → p x ≡ false → P x → Q x)
      → All P xs
      → All Q xs
  All-imp_unless p [] e k h = tt
  All-imp_unless p (x ∷ xs) e k (h, hs) =
      (k x (ground arith) h, All-imp_unless p xs (ground arith) k hs)
