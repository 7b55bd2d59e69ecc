-- ===== src/Transfer/Effect.antt =====
-- What the transaction function of `TransferFunds` does to the tables when it returns no error.
use bank_system.Prelude.{◌≡◌, true, false, [], ◌∷◌, ◌++◌, none, some, arith, refl, ◌∙◌}
use mathlib.Core.List.{append_assoc}
use bank_system.Prelude.Int.{ℤ}
use bank_system.Model.{
  Uuid, Time, Account, Transaction, TransactionStatus, completed, pending, LedgerEntry, EntryType,
  credit, debit, TransferRequest,
}
use bank_system.External.{ok, Env, Decimals}
use bank_system.Store.Db.{Db, has_entry, transaction_violation, balance_of}
use bank_system.Store.Action.{Session}
use bank_system.Store.Statements.{find_account, add_transaction, add_entry}
use bank_system.Store.Inversion.{
  >>=_ok, wrapping_ok, raise_if_ok, get_account_for_update_ok, new_uuid_ok, set_status_other,
  transaction_violation_fresh, ledger_violation_fresh, update_transaction_status_ok, get_balance_ok,
  create_transaction_ok, insert_ledger_entry_ok,
}
use bank_system.Store.Queries.{is_active}
use bank_system.Transfer.{post_transfer, transfer_roles, transfer_tx}

-- The rows of a transfer: its transaction, and one row of the ledger for each side.
module _ (d : Decimals) (req : TransferRequest d.Decimal) (txn_id : Uuid) (now : Time) where
  abbrev pub posted_transaction : TransactionStatus → Transaction ℤ
  posted_transaction status = record {
    id = txn_id;
    from_account_id = req.from_account_id;
    to_account_id = req.to_account_id;
    amount = d.to_numeric req.amount;
    status = status;
    idempotency_key = req.idempotency_key;
    created_at = now;
    updated_at = now;
  }

  abbrev pub posted_entry : Uuid → Uuid → EntryType → LedgerEntry ℤ
  posted_entry id account_id entry_type = record {
    id = id;
    account_id = account_id;
    transaction_id = txn_id;
    amount = d.to_numeric req.amount;
    entry_type = entry_type;
    created_at = now;
  }

  abbrev pub posted_db : Uuid → Uuid → Db → Db
  posted_db debit_id credit_id db = record db {
    transactions = db.transactions ++ posted_transaction completed ∷ [];
    ledger =
        db.ledger
        ++ posted_entry debit_id req.from_account_id debit
          ∷ posted_entry credit_id req.to_account_id credit
          ∷ [];
  }

-- `after` is `before` with the rows of one transfer, which passed every check.
pub record IsPosted (d : Decimals) (req : TransferRequest d.Decimal) (txn_id : Uuid)
    (before after : Db) : Type 0 where
  pub now : Time
  pub debit_id : Uuid
  pub credit_id : Uuid
  pub sender : Account
  pub receiver : Account
  pub rows : after ≡ posted_db d req txn_id now debit_id credit_id before
  pub sender_found : find_account req.from_account_id before ≡ some sender
  pub receiver_found : find_account req.to_account_id before ≡ some receiver
  pub sender_active : is_active sender.status ≡ true
  pub receiver_active : is_active receiver.status ≡ true
  pub covered :
      d.less_than (d.from_numeric (balance_of before.ledger req.from_account_id)) req.amount ≡ false
  pub insertable : transaction_violation before (posted_transaction d req txn_id now pending) ≡ none
  pub debit_insertable : has_entry debit_id before.ledger ≡ false
  pub credit_insertable :
      has_entry credit_id
        (before.ledger ++ posted_entry d req txn_id now debit_id req.from_account_id debit ∷ [])
      ≡ false

module _ (env : Env) (d : Decimals) (req : TransferRequest d.Decimal) (txn_id : Uuid) where
  -- The rows that the second half adds, and the constraints that they met.
  record Posts (before after : Session) : Type 0 where
    debit_id : Uuid
    credit_id : Uuid
    rows : after.db ≡ posted_db d req txn_id before.clock debit_id credit_id before.db
    locks : after.locks ≡ before.locks
    insertable :
        transaction_violation before.db (posted_transaction d req txn_id before.clock pending)
        ≡ none
    debit_insertable : has_entry debit_id before.db.ledger ≡ false
    credit_insertable :
        has_entry credit_id (
          before.db.ledger
          ++ posted_entry d req txn_id before.clock debit_id req.from_account_id debit ∷ [])
        ≡ false

  post_transfer-Posts :
      (s : Session) {s' : Session} → post_transfer env d req txn_id s ≡ (ok tt, s') → Posts s s'
  unfolding post_transfer
  post_transfer-Posts s h = >>=_ok _ _ s h λ _ s1 e1 h1. >>=_ok _ _ s1 h1 λ debit_id s2 e2 h2.
      >>=_ok _ _ s2 h2 λ credit_id s3 e3 h3. >>=_ok _ _ s3 h3 λ _ s4 e4 h4.
        >>=_ok _ _ s4 h4 λ _ s5 e5 h5.
          let created = create_transaction_ok env d _ s e1 in
          let drawn = new_uuid_ok env s1 e2 in
          let drawn' = new_uuid_ok env s2 e3 in
          let debited = insert_ledger_entry_ok env d _ s3 (wrapping_ok _ _ s3 e4) in
          let credited = insert_ledger_entry_ok env d _ s4 (wrapping_ok _ _ s4 e5) in
          let updated = update_transaction_status_ok env _ _ s5 h5 in
          let clock : s3.clock ≡ s.clock = cc in
          let db3 : s3.db ≡ add_transaction (posted_transaction d req txn_id s.clock pending) s.db =
            (drawn'.0 ∙ drawn.0) ∙ created.1 in
          let entry : LedgerEntry ℤ =
            posted_entry d req txn_id s.clock debit_id req.from_account_id debit in
          let entry' : LedgerEntry ℤ =
            posted_entry d req txn_id s.clock credit_id req.to_account_id credit in
          let db4 : s4.db
              ≡ add_entry entry
                  (add_transaction (posted_transaction d req txn_id s.clock pending) s.db) =
            debited.1 ∙ rw (clock, db3) in
          let db5 : s5.db
              ≡ add_entry entry' (
                  add_entry entry
                    (add_transaction (posted_transaction d req txn_id s.clock pending) s.db)) =
            credited.1 ∙ rw (debited.2, clock, db4) in
          record {
            debit_id = debit_id;
            credit_id = credit_id;
            rows =
                updated.1
                ∙ (rw (db5, credited.2, debited.2, clock)
                    (rw
                      (
                        set_status_other txn_id completed s.clock s.db.transactions
                            (posted_transaction d req txn_id s.clock pending)
                            (transaction_violation_fresh _ _ created.0) refl,
                        append_assoc,
                      )
                      refl));
            locks = cc;
            insertable = created.0;
            debit_insertable = rw db3 at (ledger_violation_fresh _ _ debited.0);
            credit_insertable = rw db4 at (ledger_violation_fresh _ _ credited.0);
          }

  -- A transfer whose transaction function returns no error has added its rows, and every check
  -- before that has passed.
  pub transfer_tx-IsPosted :
      (s : Session) {s' : Session}
      → transfer_tx env d req txn_id s ≡ (ok tt, s')
      → IsPosted d req txn_id s.db s'.db
  unfolding transfer_tx transfer_roles
  transfer_tx-IsPosted s {s'} h = >>=_ok _ _ s h λ _ s1 e1 h1. >>=_ok _ _ s1 h1 λ _ s2 e2 h2.
      >>=_ok _ _ s2 h2 λ sender s3 e3 h3. >>=_ok _ _ s3 h3 λ receiver s4 e4 h4.
        >>=_ok _ _ s4 h4 λ _ s5 e5 h5. >>=_ok _ _ s5 h5 λ _ s6 e6 h6.
          >>=_ok _ _ s6 h6 λ balance s7 e7 h7. >>=_ok _ _ s7 h7 λ _ s8 e8 h8.
            let first = get_account_for_update_ok env _ s e1 in
            let second = get_account_for_update_ok env _ s1 e2 in
            let from = get_account_for_update_ok env _ s2 (wrapping_ok _ _ s2 e3) in
            let to = get_account_for_update_ok env _ s3 (wrapping_ok _ _ s3 e4) in
            let from_active = raise_if_ok _ _ s4 e5 in
            let to_active = raise_if_ok _ _ s5 e6 in
            let summed = get_balance_ok env d _ s6 (wrapping_ok _ _ s6 e7) in
            let enough = raise_if_ok _ _ s7 e8 in
            let posts = post_transfer-Posts s8 h8 in
            let db2 : s2.db ≡ s.db = second.1 ∙ first.1 in
            let db3 : s3.db ≡ s.db = from.1 ∙ db2 in
            let db6 : s6.db ≡ s.db = cc in
            let db8 : s8.db ≡ s.db = cc in
            record {
              now = s8.clock;
              debit_id = posts.debit_id;
              credit_id = posts.credit_id;
              sender = sender;
              receiver = receiver;
              rows = rw db8 at posts.rows;
              sender_found = rw db2 at from.0;
              receiver_found = rw db3 at to.0;
              sender_active = ground arith;
              receiver_active = ground arith;
              covered = rw (summed.0, db6) at enough.0;
              insertable = rw db8 at posts.insertable;
              debit_insertable = rw db8 at posts.debit_insertable;
              credit_insertable = rw db8 at posts.credit_insertable;
            }
