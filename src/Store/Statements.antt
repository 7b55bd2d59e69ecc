-- ===== src/Store/Statements.antt =====
-- The statements of `Store` that run inside a transaction.
use bank_system.Prelude.{str_append, not, [], ◌∷◌, ◌++◌, Option, none, some, find, ◌==◌}
use bank_system.Prelude.Int.{ℤ}
use bank_system.Errs.{Sentinel, sentinel, plain}
use bank_system.Model.{Uuid, Time, Account, Transaction, TransactionStatus, LedgerEntry}
use bank_system.External.{Env, Decimals}
use bank_system.Store.Db.{
  Db, has_transaction, transaction_violation, ledger_violation, balance_of, set_status,
}
use bank_system.Store.Action.{
  Session, Action, pure, raise, gets, ◌>>=◌, ◌>>◌, raise_if, modify, wrapping, lock, statement,
  enforce,
}

abbrev pub find_account : Uuid → Db → Option Account
find_account id db = find (λ a. a.id == id) db.accounts

-- The row that is found is locked; `sql.ErrNoRows` becomes `ErrAccountNotFound`.
unfoldable pub lock_row : Uuid → Option Account → Action Account
lock_row id none = raise (sentinel Sentinel.account_not_found)
lock_row id (some a) = lock id >> pure a

abbrev pub add_transaction : Transaction ℤ → Db → Db
add_transaction t db = record db { transactions = db.transactions ++ t ∷ [] }

abbrev pub add_entry : LedgerEntry ℤ → Db → Db
add_entry e db = record db { ledger = db.ledger ++ e ∷ [] }

abbrev pub on_db : (Db → Db) → Session → Session
on_db f s = record s { db = f s.db }

module _ (env : Env) where
  unfoldable pub get_account_for_update : Uuid → Action Account
  unfolding lock_row
  get_account_for_update id = do
    wrapping "get account for update: " (statement env)
    row ← gets (λ s. find_account id s.db)
    lock_row id row

  unfoldable pub update_transaction_status : Uuid → TransactionStatus → Action (Unit {0})
  update_transaction_status id status = do
    wrapping "update transaction status: " (statement env)
    known ← gets (λ s. has_transaction id s.db.transactions)
    modify λ s.
        on_db (λ db. record db { transactions = set_status id status s.clock db.transactions }) s
    raise_if (not known)
        (plain (str_append "transaction " (str_append (env.uuid_string id) " not found")))

module _ (env : Env) (d : Decimals) where
  unfoldable pub get_balance : Uuid → Action d.Decimal
  get_balance id = do
    wrapping "get balance: " (statement env)
    gets (λ s. d.from_numeric (balance_of s.db.ledger id))

  -- The row that the INSERT makes of a transaction: rounded, with the columns' defaults.
  abbrev pub transaction_row : Transaction d.Decimal → Time → Transaction ℤ
  transaction_row t now = record {
    id = t.id;
    from_account_id = t.from_account_id;
    to_account_id = t.to_account_id;
    amount = d.to_numeric t.amount;
    status = t.status;
    idempotency_key = t.idempotency_key;
    created_at = now;
    updated_at = now;
  }

  abbrev pub entry_row : LedgerEntry d.Decimal → Time → LedgerEntry ℤ
  entry_row e now = record {
    id = e.id;
    account_id = e.account_id;
    transaction_id = e.transaction_id;
    amount = d.to_numeric e.amount;
    entry_type = e.entry_type;
    created_at = now;
  }

  -- `INSERT INTO transactions`
  unfoldable pub insert_transaction_row : Transaction ℤ → Action (Unit {0})
  insert_transaction_row t = do
    statement env
    broken ← gets (λ s. transaction_violation s.db t)
    enforce env broken
    modify (on_db (add_transaction t))

  -- `INSERT INTO ledger`
  unfoldable pub insert_ledger_row : LedgerEntry ℤ → Action (Unit {0})
  insert_ledger_row e = do
    statement env
    broken ← gets (λ s. ledger_violation s.db e)
    enforce env broken
    modify (on_db (add_entry e))

  unfoldable pub create_transaction : Transaction d.Decimal → Action (Unit {0})
  create_transaction t = do
    now ← gets (λ s. s.clock)
    wrapping "create transaction: " (insert_transaction_row (transaction_row t now))

  unfoldable pub insert_ledger_entry : LedgerEntry d.Decimal → Action (Unit {0})
  insert_ledger_entry e = do
    now ← gets (λ s. s.clock)
    wrapping "insert ledger entry: " (insert_ledger_row (entry_row e now))
