-- ===== src/Transfer/Bookkeeping.antt =====
-- The invariant of the tables under `TransferFunds`.
use bank_system.Prelude.{
  ◌≡◌, refl, true, [], ◌∷◌, ◌++◌, Distinct, Distinct-snoc, any-append, ◌==◌, arith,
}
use mathlib.Core.List.{append_assoc}
use mathlib.Core.Path.{subst}
use bank_system.Prelude.Int.{ℤ}
use bank_system.Model.{Uuid, Transaction, LedgerEntry, TransferRequest, completed, credit, debit}
use bank_system.External.{Env, Decimals, Redis}
use bank_system.Store.Db.{Db, has_transaction}
use bank_system.Store.Consistency.{
  transferred, IsConsistent, IsBookable, book-IsConsistent, IsBookable-of_violation, IsExtended,
  IsExtended-refl,
}
use bank_system.Transfer.{World, transfer_funds}
use bank_system.Transfer.Effect.{IsPosted, posted_transaction, posted_entry}
use bank_system.Transfer.Outcome.{transfer_funds_elim}

module _ (d : Decimals) (req : TransferRequest d.Decimal) (txn_id : Uuid) (before after : Db)
    (p : IsPosted d req txn_id before after) where
  abbrev t : Transaction ℤ
  t = posted_transaction d req txn_id p.now completed

  abbrev debited : LedgerEntry ℤ
  debited = posted_entry d req txn_id p.now p.debit_id req.from_account_id debit

  abbrev credited : LedgerEntry ℤ
  credited = posted_entry d req txn_id p.now p.credit_id req.to_account_id credit

  IsPosted-IsBookable : IsBookable before t
  IsPosted-IsBookable = IsBookable-of_violation before _ p.insertable

  has_transaction-book : has_transaction txn_id (before.transactions ++ t ∷ []) ≡ true
  has_transaction-book =
      rw (any-append (λ u. u.id == txn_id) before.transactions (t ∷ [])) (ground arith)

  pub IsPosted-IsConsistent : IsConsistent before → IsConsistent after
  IsPosted-IsConsistent h =
      let b = IsPosted-IsBookable in
      let known = has_transaction-book in
      rw p.rows (
        book-IsConsistent before t (debited ∷ credited ∷ []) h b (refl, (refl, tt))
          (transferred (record { account = refl; of = refl; amount = refl; kind = refl })
            (record { account = refl; of = refl; amount = refl; kind = refl }))
          (
            record {
              positive = b.positive;
              account_known = b.from_known;
              transaction_known = known;
            },
            (
              record {
                positive = b.positive;
                account_known = b.to_known;
                transaction_known = known;
              },
              tt,
            ),
          )
          (subst (Distinct (λ e. e.id)) (append_assoc before.ledger (debited ∷ []) (credited ∷ []))
            (Distinct-snoc (λ e. e.id) (before.ledger ++ debited ∷ []) credited
              (Distinct-snoc (λ e. e.id) before.ledger debited h.entry_ids p.debit_insertable)
              p.credit_insertable)))

  IsPosted-IsExtended : IsExtended before after
  IsPosted-IsExtended = rw p.rows (record {
    users = refl;
    accounts = refl;
    new_transactions = t ∷ [];
    transactions = refl;
    new_entries = debited ∷ credited ∷ [];
    ledger = refl;
  })

module _ (r : Redis) (env : Env) (d : Decimals) (req : TransferRequest d.Decimal) where
  -- Whatever `TransferFunds` returns, the tables stay consistent: ids and idempotency keys are
  -- unique, rows refer to rows that exist, and every transaction is Completed and has in the ledger
  -- a debit of its sender and a credit of its receiver over its amount, or, if money was minted, the
  -- credit alone, and nothing else.
  pub transfer_funds-IsConsistent :
      (w : World r.State)
      → IsConsistent w.session.db
      → IsConsistent (transfer_funds r env d req w).1.session.db
  transfer_funds-IsConsistent w h =
      transfer_funds_elim r env d req IsConsistent w h
        (λ txn_id after p. IsPosted-IsConsistent d req txn_id _ after p h)

  -- Whatever `TransferFunds` returns, it has only added rows, behind those of `transactions` and
  -- `ledger`: no row is changed or removed.
  transfer_funds-IsExtended :
      (w : World r.State) → IsExtended w.session.db (transfer_funds r env d req w).1.session.db
  transfer_funds-IsExtended w =
      transfer_funds_elim r env d req (IsExtended w.session.db) w (IsExtended-refl _)
        (λ txn_id after p. IsPosted-IsExtended d req txn_id _ after p)
