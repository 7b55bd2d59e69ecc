-- ===== src/Prelude/Below.antt =====
-- Searches through the numbers below a bound.
use Prim.Native.Nat.{ℕ, zero, suc, ◌<◌}
use Prim.Native.String.{String}
use mathlib.Core.Path.{◌≡◌, sym, ◌∙◌, subst}
use mathlib.Core.Logic.{◌≢◌, ◌⊎◌, inl, inr}
use mathlib.Core.Bool.{Bool, true, false}
use native.Mathlib.Omega.{arith}
use bank_system.Prelude.Bools.{Bool-cases}
use bank_system.Prelude.Text.{str_gtb}
use bank_system.Prelude.TextOrder.{str_gtb_asymm, str_gtb_trans}

pub last_cases : (j n : ℕ) → j < suc n → (n ≡ j) ⊎ (j < n)
last_cases j n less = ground arith

not_above_itself : (s : String) → str_gtb s s ≡ false
not_above_itself s = elim (Bool-cases (str_gtb s s)) [
  | inl above ↦ str_gtb_asymm s s above
  | inr same ↦ same
]

-- What is above one that is not above a third one is not below the third.
under_trans : (s t u : String) → str_gtb s t ≡ false → str_gtb u t ≡ true → str_gtb s u ≡ false
under_trans s t u under above = elim (Bool-cases (str_gtb s u)) [
  | inl over ↦ absurd (ground (arith, str_gtb_trans s u t))
  | inr same ↦ same
]

pub true-false : true ≢ false
true-false e = cc

module _ (p : ℕ → Bool) where
  abbrev pub FoundBelow : ℕ → Type 0
  FoundBelow n = (j : ℕ) × ((j < n) × (p j ≡ true))

  abbrev pub NoneBelow : ℕ → Type 0
  NoneBelow n = (j : ℕ) → j < n → p j ≡ false

  below_last : (n : ℕ) → p n ≡ false → NoneBelow n → NoneBelow (suc n)
  below_last n last none_below j less = elim (last_cases j n less) [
    | inl e ↦ subst (λ k. p k ≡ false) e last
    | inr below ↦ none_below j below
  ]

  pub search_below : (n : ℕ) → FoundBelow n ⊎ NoneBelow n
  search_below zero = inr (λ j less. absurd (omega arith))
  search_below (suc n) = elim (Bool-cases (p n)) [
    | inl last ↦ inl (n, (omega arith, last))
    | inr last ↦ elim (search_below n) [
      | inl (j, (less, found)) ↦ inl (j, (omega arith, found))
      | inr none_below ↦ inr (below_last n last none_below)
    ]
  ]

  -- One with no greater text among those that are searched for.
  module _ (f : ℕ → String) where
    pub record IsGreatest (n m : ℕ) : Type 0 where
      pub below : m < n
      pub found : p m ≡ true
      pub top : (j : ℕ) → j < n → p j ≡ true → str_gtb (f j) (f m) ≡ false

    abbrev pub GreatestBelow : ℕ → Type 0
    GreatestBelow n = (m : ℕ) × IsGreatest n m

    -- The greatest so far stays so if the last is not above it.
    keep-IsGreatest :
        (n m : ℕ)
        → (p n ≡ true → str_gtb (f n) (f m) ≡ false)
        → IsGreatest n m
        → IsGreatest (suc n) m
    keep-IsGreatest n m under g = record {
      below = let less = g.below in omega arith;
      found = g.found;
      top = λ j less found. elim (last_cases j n less) [
        | inl e ↦
            subst (λ k. str_gtb (f k) (f m) ≡ false) e
              (under (subst (λ k. p k ≡ true) (sym e) found))
        | inr below ↦ g.top j below found
      ];
    }

    take_last :
        (n : ℕ)
        → p n ≡ true
        → ((j : ℕ) → j < n → p j ≡ true → str_gtb (f j) (f n) ≡ false)
        → IsGreatest (suc n) n
    take_last n last under = record {
      below = omega arith;
      found = last;
      top = λ j less found. elim (last_cases j n less) [
        | inl e ↦ subst (λ k. str_gtb (f k) (f n) ≡ false) e (not_above_itself (f n))
        | inr below ↦ under j below found
      ];
    }

    pub greatest_below : (n : ℕ) → GreatestBelow n ⊎ NoneBelow n
    greatest_below zero = inr (λ j less. absurd (omega arith))
    greatest_below (suc n) = elim (Bool-cases (p n)) [
      | inr last ↦ elim (greatest_below n) [
        | inl (m, g) ↦ inl (m, keep-IsGreatest n m (λ found. absurd (cc)) g)
        | inr none_below ↦ inr (below_last n last none_below)
      ]
      | inl last ↦ elim (greatest_below n) [
        | inr none_below ↦ inl (
          n,
          take_last n last (λ j less found. absurd (true-false (sym found ∙ none_below j less))),
        )
        | inl (m, g) ↦ elim (Bool-cases (str_gtb (f n) (f m))) [
          | inl above ↦ inl (
            n,
            take_last n last
                (λ j less found. under_trans (f j) (f m) (f n) (g.top j less found) above),
          )
          | inr under ↦ inl (m, keep-IsGreatest n m (λ found. under) g)
        ]
      ]
    ]
