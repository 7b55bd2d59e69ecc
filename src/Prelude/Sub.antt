-- ===== src/Prelude/Sub.antt =====
-- Lists that are left when some elements of a list are dropped.
use Prim.Native.Nat.{◌≤◌}
use mathlib.Core.Path.{◌≡◌, refl}
use mathlib.Core.Bool.{Bool, true, false}
use mathlib.Core.List.{List, [], ◌∷◌}
use native.Mathlib.Omega.{arith}
use bank_system.Prelude.Bools.{if◌then◌else◌}
use bank_system.Prelude.Lists.{All, length, filter}

pub data Sub {A : Type 0} : List A → List A → Type 0 where
  nil : Sub [] []
  skip : {y : A} {xs ys : List A} → Sub xs ys → Sub xs (y ∷ ys)
  keep : {x : A} {xs ys : List A} → Sub xs ys → Sub (x ∷ xs) (x ∷ ys)

module _ {A : Type 0} where
  pub length-Sub : {xs ys : List A} → Sub xs ys → length xs ≤ length ys
  length-Sub nil = omega arith
  length-Sub (skip h) = omega (arith, length-Sub h)
  length-Sub (keep h) = omega (arith, length-Sub h)

  pub Sub-nil : (ys : List A) → Sub [] ys
  Sub-nil [] = nil
  Sub-nil (y ∷ ys) = skip (Sub-nil ys)

  pub Sub-refl : (xs : List A) → Sub xs xs
  Sub-refl [] = nil
  Sub-refl (x ∷ xs) = keep (Sub-refl xs)

  skip_if : (b : Bool) (y : A) (xs ys : List A) → Sub xs ys → Sub xs (if b then y ∷ ys else ys)
  skip_if true y xs ys h = skip h
  skip_if false y xs ys h = h

  keep_if :
      (b : Bool) (x : A) (xs ys : List A)
      → Sub xs ys
      → Sub (if b then x ∷ xs else xs) (if b then x ∷ ys else ys)
  keep_if true x xs ys h = keep h
  keep_if false x xs ys h = h

  drop_if :
      (b : Bool) (x : A) (xs ys : List A) → Sub xs ys → Sub (if b then x ∷ xs else xs) (x ∷ ys)
  drop_if true x xs ys h = keep h
  drop_if false x xs ys h = skip h

  All-if :
      (P : A → Type 0) (b : Bool) (x : A) (xs : List A)
      → (b ≡ true → P x)
      → All P xs
      → All P (if b then x ∷ xs else xs)
  All-if P true x xs h hs = (h refl, hs)
  All-if P false x xs h hs = hs

  module _ (p : A → Bool) where
    -- The same test on both.
    pub Sub-filter : {xs ys : List A} → Sub xs ys → Sub (filter p xs) (filter p ys)
    Sub-filter nil = nil
    Sub-filter {xs} (skip {y} {ys} h) = skip_if (p y) y (filter p xs) (filter p ys) (Sub-filter h)
    Sub-filter (keep {x} {xs} {ys} h) = keep_if (p x) x (filter p xs) (filter p ys) (Sub-filter h)

    pub Sub-filter_left : {xs ys : List A} → Sub xs ys → Sub (filter p xs) ys
    Sub-filter_left nil = nil
    Sub-filter_left (skip h) = skip (Sub-filter_left h)
    Sub-filter_left (keep {x} {xs} {ys} h) = drop_if (p x) x (filter p xs) ys (Sub-filter_left h)

    pub filter-All : (xs : List A) → All (λ x. p x ≡ true) xs → filter p xs ≡ xs
    filter-All [] h = refl
    filter-All (x ∷ xs) (h, hs) = ground (arith, filter-All xs hs)

    pub All-filter : (P : A → Type 0) (xs : List A) → All P xs → All P (filter p xs)
    All-filter P [] h = tt
    All-filter P (x ∷ xs) (h, hs) = All-if P (p x) x (filter p xs) (λ _. h) (All-filter P xs hs)

    pub filter-passes : (xs : List A) → All (λ x. p x ≡ true) (filter p xs)
    filter-passes [] = tt
    filter-passes (x ∷ xs) =
        All-if (λ x. p x ≡ true) (p x) x (filter p xs) (λ h. h) (filter-passes xs)
