-- ===== src/Concurrent/Deadlock.antt =====
-- The order of the locks leaves no deadlock.
use bank_system.Prelude.{
  ℕ, ◌≡◌, ◌≢◌, refl, sym, ap, ◌∙◌, ◌<◌, inl, inr, true, false, ◌==◌, arith, Option-cases, str_gtb,
}
use mathlib.Core.Path.{subst}
use bank_system.Prelude.TextOrder.{str_gtb_total}
use bank_system.Prelude.Below.{true-false, IsGreatest, greatest_below}
use bank_system.Model.{Uuid}
use bank_system.External.{Env, Decimals}
use bank_system.Store.Statements.{find_account}
use bank_system.Transfer.Locks.{lock_order_ordered}
use bank_system.Concurrent.{
  starts, waiting_first, waiting_second, is_over, Thread, System, from_of, to_of, first_of,
  second_of, holds, takes_first, misses_first, takes_second, misses_second,
}
use bank_system.Concurrent.Invariant.{Inv}
use bank_system.Concurrent.Runs.{IsIdle}
use bank_system.Concurrent.Progress.{
  is_halfway, SomeCanMove, holder_or_IsFree, halfway_phase, holder_cases, open_cases, settled_moves,
}

same_id : {a b : ℕ} → a ≡ b → (a == b) ≡ true
same_id e = ground arith

same_number : {a b : ℕ} → (a == b) ≡ true → a ≡ b
same_number e = ground arith

module _ (env : Env) (d : Decimals) (threads : ℕ → Thread d)
    (distinct : (a b : Uuid) → env.uuid_string a ≡ env.uuid_string b → a ≡ b) where
  module _ (n : ℕ) (s : System) (h : Inv env d threads s) (idle : IsIdle n s) where
    -- A transaction that waits for its second lock, none of the others that do having locked a row
    -- with a greater text: no such transaction has the row that it waits for.
    not_halfway :
        (m j : ℕ)
        → s.phase m ≡ waiting_second
        → s.phase j ≡ waiting_second
        → j ≢ m
        → str_gtb
            (env.uuid_string (first_of env d threads j))
            (env.uuid_string (first_of env d threads m))
          ≡ false
        → first_of env d threads j ≢ second_of env d threads m
    not_halfway m j e e' other top same =
        let under =
          subst
            (λ x. str_gtb (env.uuid_string x) (env.uuid_string (first_of env d threads m)) ≡ false)
            same top in
        let one : first_of env d threads m ≡ second_of env d threads m = distinct _ _ (
          str_gtb_total _ _
            (lock_order_ordered env (from_of env d threads m) (to_of env d threads m)) under) in
        other (
          h.exclusive j m (first_of env d threads m)
            (ap (λ p. holds env d threads j p (first_of env d threads m)) e'
              ∙ same_id (same ∙ sym one))
            (ap (λ p. holds env d threads m p (first_of env d threads m)) e ∙ same_id refl))

    -- Where none of those that wait for their second lock has locked a greater row than one of them,
    -- some transaction can move.
    halfway_moves :
        (m : ℕ)
        → IsGreatest
            (λ j. is_halfway (s.phase j))
            (λ j. env.uuid_string (first_of env d threads j))
            n
            m
        → SomeCanMove env d threads n s
    halfway_moves m g = elim (Option-cases (find_account (second_of env d threads m) (s.seen m))) [
      | inl lost ↦ (m, (g.below, (_, (misses_second at_second lost, refl))))
      | inr (a, found) ↦
          elim (holder_or_IsFree env d threads n s h idle m (second_of env d threads m)) [
            | inr free ↦ (m, (g.below, (_, (takes_second a at_second found free, refl))))
            | inl (j, (less, (other, held))) ↦ holder_moves j less other held
          ]
    ]
      where
        at_second : s.phase m ≡ waiting_second
        at_second = halfway_phase (s.phase m) g.found

        holder_moves :
            (j : ℕ)
            → j < n
            → j ≢ m
            → holds env d threads j (s.phase j) (second_of env d threads m) ≡ true
            → SomeCanMove env d threads n s
        holder_moves j less other held =
            elim (holder_cases env d threads j (s.phase j) (second_of env d threads m) held) [
              | inr settled ↦ settled_moves env d threads n s h idle j (s.phase j) less refl settled
              | inl halfway ↦
                  let e : s.phase j ≡ waiting_second = halfway_phase (s.phase j) halfway in
                  absurd (
                    not_halfway m j at_second e other (g.top j less halfway) (
                      same_number (
                        ap (λ p. holds env d threads j p (second_of env d threads m)) (sym e)
                        ∙ held)))
            ]

    -- Where none waits for its second lock, one that waits for its first can take it.
    first_moves :
        ((j : ℕ) → j < n → is_halfway (s.phase j) ≡ false)
        → (i : ℕ) → i < n
        → s.phase i ≡ waiting_first
        → SomeCanMove env d threads n s
    first_moves none_halfway i i_less at_first =
        elim (Option-cases (find_account (first_of env d threads i) (s.seen i))) [
          | inl lost ↦ (i, (i_less, (_, (misses_first at_first lost, refl))))
          | inr (a, found) ↦
              elim (holder_or_IsFree env d threads n s h idle i (first_of env d threads i)) [
                | inr free ↦ (i, (i_less, (_, (takes_first a at_first found free, refl))))
                | inl (j, (less, (other, held))) ↦ holder_moves j less held
              ]
        ]
      where
        holder_moves :
            (j : ℕ)
            → j < n
            → holds env d threads j (s.phase j) (first_of env d threads i) ≡ true
            → SomeCanMove env d threads n s
        holder_moves j less held =
            elim (holder_cases env d threads j (s.phase j) (first_of env d threads i) held) [
              | inr settled ↦ settled_moves env d threads n s h idle j (s.phase j) less refl settled
              | inl halfway ↦ absurd (true-false (sym halfway ∙ none_halfway j less))
            ]

    -- As long as a transaction is not over, some transaction can move.
    pub open_moves : (i : ℕ) → i < n → is_over (s.phase i) ≡ false → SomeCanMove env d threads n s
    open_moves i less open_ =
        elim (greatest_below (λ j. is_halfway (s.phase j))
          (λ j. env.uuid_string (first_of env d threads j)) n) [
            | inl (m, g) ↦ halfway_moves m g
            | inr none_halfway ↦ elim (open_cases (s.phase i) open_) [
              | inl at_start ↦ (i, (less, (_, (starts at_start, refl))))
              | inr (inl at_first) ↦ first_moves none_halfway i less at_first
              | inr (inr (inl halfway)) ↦ absurd (true-false (sym halfway ∙ none_halfway i less))
              | inr (inr (inr settled)) ↦
                  settled_moves env d threads n s h idle i (s.phase i) less refl settled
            ]
          ]
