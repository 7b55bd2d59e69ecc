-- ===== src/Concurrent/Invariant.antt =====
-- What every step of the transactions keeps: the locks exclude one another, and a transaction that is
-- not excluded has a snapshot in which its sender has no more than what is committed.
use bank_system.Prelude.{
  ℕ, ◌≡◌, ◌≢◌, sym, ap, ◌∙◌, ◌≤◌, ◌⊎◌, inl, inr, Bool, true, false, ◌||◌, ◌==◌, arith, Bool-cases,
  if◌then◌else◌,
}
use mathlib.Core.Path.{subst}
use bank_system.Prelude.Int.{pos, ◌≤ℤ◌}
use bank_system.Model.{Uuid}
use bank_system.External.{Env, Decimals}
use bank_system.Store.Db.{Db, has_key, balance_of}
use bank_system.Transfer.{lock_order}
use bank_system.Concurrent.{
  Phase, writing, is_writing, is_past_checks, is_reading, Thread, System, from_of, to_of, first_of,
  second_of, amount_of, key_of, holds, IsUnrivalled,
}

module _ (env : Env) (d : Decimals) (threads : ℕ → Thread d) where
  -- What the INSERT of a transaction's row has checked.
  pub record IsPayable (i : ℕ) (db : Db) : Type 0 where
    pub positive : pos 1 ≤ℤ amount_of env d threads i
    pub differ : from_of env d threads i ≢ to_of env d threads i
    pub fresh_key : has_key (key_of env d threads i) db.transactions ≡ false

  abbrev pub IsCovered : ℕ → Db → Type 0
  IsCovered i db = amount_of env d threads i ≤ℤ balance_of db.ledger (from_of env d threads i)

  abbrev pub IsGrown : ℕ → (seen db : Db) → Type 0
  IsGrown i seen db =
      balance_of seen.ledger (from_of env d threads i)
      ≤ℤ balance_of db.ledger (from_of env d threads i)

  pub record Inv (s : System) : Type 0 where
    pub exclusive :
        (i j : ℕ) (id : Uuid)
        → holds env d threads i (s.phase i) id ≡ true
        → holds env d threads j (s.phase j) id ≡ true
        → i ≡ j
    pub covered : (i : ℕ) → is_past_checks (s.phase i) ≡ true → IsCovered i (s.seen i)
    pub grown :
        (i : ℕ) → is_reading (s.phase i) ≡ true → s.excluded i ≡ false → IsGrown i (s.seen i) s.db
    pub payable : (i : ℕ) → is_writing (s.phase i) ≡ true → IsPayable i s.db
    pub unrivalled :
        (i j : ℕ)
        → is_writing (s.phase i) ≡ true
        → is_writing (s.phase j) ≡ true
        → key_of env d threads i ≡ key_of env d threads j
        → i ≡ j
    pub few : (i k : ℕ) → s.phase i ≡ writing k → k ≤ 3

  pub from_to_cases :
      (i : ℕ) (id : Uuid)
      → (from_of env d threads i == id || to_of env d threads i == id) ≡ true
      → ((first_of env d threads i == id) ≡ true) ⊎ ((second_of env d threads i == id) ≡ true)
  unfolding lock_order
  from_to_cases i id h = ground arith

  -- What a transaction may go on to.
  module _ (i : ℕ) (p : Phase) (s : System) (db : Db) (seen : ℕ → Db) (excluded : ℕ → Bool) where
    pub record IsAllowed : Type 0 where
      pub alone :
          (j : ℕ) (id : Uuid)
          → j ≢ i
          → holds env d threads i p id ≡ true
          → holds env d threads j (s.phase j) id ≡ false
      pub covered : is_past_checks p ≡ true → IsCovered i (seen i)
      pub grown : is_reading p ≡ true → excluded i ≡ false → IsGrown i (seen i) db
      pub payable : is_writing p ≡ true → IsPayable i db
      pub rivals : is_writing p ≡ true → IsUnrivalled env d threads i s
      pub few : (k : ℕ) → p ≡ writing k → k ≤ 3

    module _ (stale : ℕ → Bool) (h : Inv s) (a : IsAllowed)
        (kept_covered : (j : ℕ) → j ≢ i → is_past_checks (s.phase j) ≡ true → IsCovered j (seen j))
        (kept_grown : (j : ℕ)
          → j ≢ i
          → is_reading (s.phase j) ≡ true
          → excluded j ≡ false
          → IsGrown j (seen j) db)
        (kept_payable : (j : ℕ) → j ≢ i → is_writing (s.phase j) ≡ true → IsPayable j db) where
      abbrev pub phase_after : ℕ → Phase
      phase_after j = if i == j then p else s.phase j

      -- A transaction is the one that has moved, or it is where it was.
      at_cases :
          (P : ℕ → Phase → Type 0) (j : ℕ)
          → (j ≡ i → P i p)
          → (j ≢ i → P j (s.phase j))
          → P j (phase_after j)
      at_cases P j mover other = elim (Bool-cases (i == j)) [
        | inl is_i ↦ let e : i ≡ j = ground arith in rw is_i (subst (λ m. P m p) e (mover (sym e)))
        | inr not_i ↦ rw not_i (other (ground arith))
      ]

      exclusive_after :
          (j k : ℕ) (id : Uuid)
          → holds env d threads j (phase_after j) id ≡ true
          → holds env d threads k (phase_after k) id ≡ true
          → j ≡ k
      exclusive_after j k id =
          at_cases
            (λ m q.
              holds env d threads m q id ≡ true
              → holds env d threads k (phase_after k) id ≡ true
              → j ≡ k)
            j
            (λ is_i hj.
              at_cases (λ m q. holds env d threads m q id ≡ true → j ≡ k) k
                (λ k_is_i hk. is_i ∙ sym k_is_i)
                (λ k_other hk. absurd (cc (a.alone k id k_other hj))))
            (λ other hj.
              at_cases (λ m q. holds env d threads m q id ≡ true → j ≡ k) k
                (λ k_is_i hk. absurd (cc (a.alone j id other hk)))
                (λ k_other hk. h.exclusive j k id hj hk))

      unrivalled_after :
          (j k : ℕ)
          → is_writing (phase_after j) ≡ true
          → is_writing (phase_after k) ≡ true
          → key_of env d threads j ≡ key_of env d threads k
          → j ≡ k
      unrivalled_after j k =
          at_cases
            (λ m q.
              is_writing q ≡ true
              → is_writing (phase_after k) ≡ true
              → key_of env d threads j ≡ key_of env d threads k
              → j ≡ k)
            j
            (λ is_i wj.
              at_cases
                (λ m q.
                  is_writing q ≡ true → key_of env d threads j ≡ key_of env d threads k → j ≡ k)
                k (λ k_is_i wk e. is_i ∙ sym k_is_i)
                (λ k_other wk e.
                  absurd (a.rivals wj k k_other wk (sym e ∙ ap (key_of env d threads) is_i))))
            (λ other wj.
              at_cases
                (λ m q.
                  is_writing q ≡ true → key_of env d threads j ≡ key_of env d threads k → j ≡ k)
                k
                (λ k_is_i wk e.
                  absurd (a.rivals wk j other wj (e ∙ ap (key_of env d threads) k_is_i)))
                (λ k_other wk e. h.unrivalled j k wj wk e))

      pub allowed-Inv :
          Inv (record {
            db = db;
            phase = phase_after;
            seen = seen;
            stale = stale;
            excluded = excluded;
          })
      allowed-Inv = record {
        exclusive = exclusive_after;
        covered = λ j.
            at_cases (λ m q. is_past_checks q ≡ true → IsCovered m (seen m)) j (λ _. a.covered)
              (kept_covered j);
        grown = λ j.
            at_cases (λ m q. is_reading q ≡ true → excluded m ≡ false → IsGrown m (seen m) db) j
              (λ _. a.grown) (kept_grown j);
        payable = λ j.
            at_cases (λ m q. is_writing q ≡ true → IsPayable m db) j (λ _. a.payable)
              (kept_payable j);
        unrivalled = unrivalled_after;
        few = λ j k. at_cases (λ m q. q ≡ writing k → k ≤ 3) j (λ _. a.few k) (λ _. h.few j k);
      }
