-- ===== src/Prelude/Sort.antt =====
-- Insertion sort, and pages of a list.
use Prim.Native.Nat.{ℕ, zero, suc, ◌+◌, ◌*◌, ◌≤◌}
use mathlib.Core.Path.{◌≡◌, refl, ap, sym, ◌∙◌}
use mathlib.Core.Bool.{Bool, true, false, ◌||◌}
use mathlib.Core.List.{List, [], ◌∷◌, ◌++◌}
use native.Mathlib.Omega.{arith}
use bank_system.Prelude.Bools.{if◌then◌else◌}
use bank_system.Prelude.Lists.{All, any, length, take, drop}

module _ {ℓ} {A : Type ℓ} (before : A → A → Bool) where
  abbrev pub insert : A → List A → List A
  insert x [] = x ∷ []
  insert x (y ∷ ys) = if before x y then x ∷ y ∷ ys else y ∷ insert x ys

  abbrev pub sort : List A → List A
  sort [] = []
  sort (x ∷ xs) = insert x (sort xs)

  length-insert : (x : A) (xs : List A) → length (insert x xs) ≡ suc (length xs)
  length-insert x [] = refl
  length-insert x (y ∷ ys) = ground (arith, length-insert x ys)

  pub length-sort : (xs : List A) → length (sort xs) ≡ length xs
  length-sort [] = refl
  length-sort (x ∷ xs) = length-insert x (sort xs) ∙ ap suc (length-sort xs)

  module _ {κ} (P : A → Type κ) where
    All-if : (b : Bool) (l r : List A) → All P l → All P r → All P (if b then l else r)
    All-if true l r hl hr = hl
    All-if false l r hl hr = hr

    pub All-insert : (x : A) (xs : List A) → P x → All P xs → All P (insert x xs)
    All-insert x [] h hs = (h, tt)
    All-insert x (y ∷ ys) h (k, ks) = All-if (before x y) _ _ (h, (k, ks)) (k, All-insert x ys h ks)

    pub All-sort : (xs : List A) → All P xs → All P (sort xs)
    All-sort [] h = tt
    All-sort (x ∷ xs) (h, hs) = All-insert x (sort xs) h (All-sort xs hs)

module _ {A : Type 0} (before : A → A → Bool) (p : A → Bool) where
  any-if :
      (b : Bool) (l r : List A) (c : Bool)
      → any p l ≡ c
      → any p r ≡ c
      → any p (if b then l else r) ≡ c
  any-if true l r c h k = h
  any-if false l r c h k = k

  any-insert : (x : A) (xs : List A) → any p (insert before x xs) ≡ (p x || any p xs)
  any-insert x [] = refl
  any-insert x (y ∷ ys) =
      any-if (before x y) (x ∷ y ∷ ys) (y ∷ insert before x ys) (p x || (p y || any p ys)) refl
        (swapped (p x) (p y) (any p ys) (any p (insert before x ys)) (any-insert x ys))
    where
      swapped : (a b c e : Bool) → e ≡ (a || c) → (b || e) ≡ (a || (b || c))
      swapped a b c e h = ground arith

  pub any-sort : (xs : List A) → any p (sort before xs) ≡ any p xs
  any-sort [] = refl
  any-sort (x ∷ xs) = any-insert x (sort before xs) ∙ ap (λ b. p x || b) (any-sort xs)

module _ {ℓ} {A : Type ℓ} where
  -- The rows of a page, where the first page has the number 0.
  abbrev pub page_at : (size page : ℕ) → List A → List A
  page_at size page xs = take size (drop (page * size) xs)

  -- The n pages from a page on, one behind the other.
  abbrev pub pages_from : (size page n : ℕ) → List A → List A
  pages_from size page zero xs = []
  pages_from size page (suc n) xs = page_at size page xs ++ pages_from size (suc page) n xs

  take-drop : (n : ℕ) (xs : List A) → take n xs ++ drop n xs ≡ xs
  take-drop zero xs = refl
  take-drop (suc n) [] = refl
  take-drop (suc n) (x ∷ xs) = ap (λ l. x ∷ l) (take-drop n xs)

  drop_nil : (n : ℕ) → drop {A = A} n [] ≡ []
  drop_nil zero = refl
  drop_nil (suc n) = refl

  drop-drop : (m n : ℕ) (xs : List A) → drop m (drop n xs) ≡ drop (n + m) xs
  drop-drop m zero xs = ap (λ k. drop k xs) (omega arith)
  drop-drop m (suc n) [] = drop_nil m ∙ sym (drop_nil (suc n + m))
  drop-drop m (suc n) (x ∷ xs) =
      let turned : suc (n + m) ≡ suc n + m = omega arith in
      drop-drop m n xs ∙ ap (λ k. drop k (x ∷ xs)) turned

  drop_all : (n : ℕ) (xs : List A) → length xs ≤ n → drop n xs ≡ []
  drop_all zero [] h = refl
  drop_all zero (x ∷ xs) h = absurd (omega arith)
  drop_all (suc n) [] h = refl
  drop_all (suc n) (x ∷ xs) h = drop_all n xs (omega arith)

  -- Enough pages hold all that is left.
  pub pages_from-drop :
      (size page n : ℕ) (xs : List A)
      → length xs ≤ (page + n) * size
      → pages_from size page n xs ≡ drop (page * size) xs
  pages_from-drop size page zero xs h = sym (drop_all _ xs (omega arith))
  pages_from-drop size page (suc n) xs h =
      let next : drop size (drop (page * size) xs) ≡ drop (suc page * size) xs =
        drop-drop size (page * size) xs ∙ ap (λ k. drop k xs) (omega arith) in
      let turned : page + suc n ≡ suc page + n = omega arith in
      ap (λ l. page_at size page xs ++ l)
        (pages_from-drop size (suc page) n xs (rw turned at h) ∙ sym next)
      ∙ take-drop size (drop (page * size) xs)
