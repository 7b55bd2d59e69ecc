-- ===== src/Concurrent/Commit.antt =====
-- A commit, and what it leaves to the other transactions.
use bank_system.Prelude.{
  ℕ, ◌≡◌, ◌≢◌, sym, ap, ◌∙◌, inl, inr, Bool, true, false, ◌||◌, ◌&&◌, ◌==◌, arith, Bool-cases,
}
use bank_system.Prelude.Int.{◌≤ℤ◌, int_laws}
use bank_system.Model.{Uuid}
use bank_system.External.{Env, Decimals}
use bank_system.Store.Db.{Db, has_key, balance_of}
use bank_system.Bank.Moves.{has_key-snoc}
use bank_system.Concurrent.{
  writing, returned, is_writing, Thread, System, from_of, to_of, key_of, conflicts, commit_system,
  is_reading, commit_rows,
}
use bank_system.Concurrent.Invariant.{IsPayable, IsGrown, Inv, IsAllowed, allowed-Inv}
use bank_system.Transfer.Balances.{posted_db-IsMoved}

module _ (env : Env) (d : Decimals) (threads : ℕ → Thread d) where
  module _ (i : ℕ) (s : System) (h : Inv env d threads s)
      (over : IsAllowed env d threads i returned s
        (commit_rows env d threads i s.db)
        s.seen
        (commit_system env d threads i s).excluded) where
    module _ (e : s.phase i ≡ writing 3) where
      abbrev after : Db
      after = commit_rows env d threads i s.db

      -- A transaction that is not excluded by the commit has another sender.
      not_excluded :
          (j : ℕ)
          → (s.excluded j || conflicts env d threads i j) ≡ false
          → (s.excluded j ≡ false) × (from_of env d threads j ≢ from_of env d threads i)
      not_excluded j free =
          apart (s.excluded j) (from_of env d threads i) (to_of env d threads i)
            (from_of env d threads j) (to_of env d threads j) free
        where
          apart :
              (b : Bool) (f t f' t' : ℕ)
              → (b || ((f == f' || t == f') && (f' == f || t' == f))) ≡ false
              → (b ≡ false) × (f' ≢ f)
          apart b f t f' t' h = (ground arith, λ same. ground arith)

      -- No account has less than before but the sender's.
      raises :
          (id : Uuid)
          → id ≢ from_of env d threads i
          → balance_of s.db.ledger id ≤ℤ balance_of after.ledger id
      raises id other =
          let one = threads i in
          let p = h.payable i (ap is_writing e) in
          let (_, received, others) =
            posted_db-IsMoved d one.req one.txn_id one.now one.debit_id one.credit_id s.db
              p.differ in
          let positive = p.positive in
          elim (Bool-cases (id == to_of env d threads i)) [
            | inl is_to ↦
                let same : id ≡ to_of env d threads i = ground arith in
                rw (same, received) (omega int_laws)
            | inr not_to ↦ rw (others id other (ground arith)) (omega int_laws)
          ]

      commit-IsGrown :
          (j : ℕ)
          → j ≢ i
          → is_reading (s.phase j) ≡ true
          → (s.excluded j || conflicts env d threads i j) ≡ false
          → IsGrown env d threads j (s.seen j) after
      commit-IsGrown j other reading free =
          let (was_free, sender) = not_excluded j free in
          let before = h.grown j reading was_free in
          let more = raises (from_of env d threads j) sender in omega int_laws

      commit-IsPayable :
          (j : ℕ) → j ≢ i → is_writing (s.phase j) ≡ true → IsPayable env d threads j after
      commit-IsPayable j other wj =
          let p = h.payable j wj in
          record {
            positive = p.positive;
            differ = p.differ;
            fresh_key =
                has_key-snoc s.db.transactions _ (key_of env d threads j)
                ∙ fresh_or (has_key (key_of env d threads j) s.db.transactions)
                    (key_of env d threads i) (key_of env d threads j) p.fresh_key
                    (λ same. other (h.unrivalled j i wj (ap is_writing e) (sym same)));
          }
        where
          fresh_or : (b : Bool) (k l : ℕ) → b ≡ false → k ≢ l → (b || k == l) ≡ false
          fresh_or b k l h differ = ground arith

      pub commit-Inv : Inv env d threads (commit_system env d threads i s)
      commit-Inv =
          allowed-Inv env d threads i returned s after s.seen
            (commit_system env d threads i s).excluded (commit_system env d threads i s).stale h
            over (λ j _. h.covered j) commit-IsGrown commit-IsPayable
