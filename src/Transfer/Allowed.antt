-- ===== src/Transfer/Allowed.antt =====
-- The transfers that the tables allow, and the rows that the constraints let through.
use bank_system.Prelude.{
  ℕ, true, false, ◌≡◌, ◌≢◌, none, some, [], ◌∷◌, ◌++◌, any-append, find, ◌==◌, arith,
}
use bank_system.Prelude.Int.{ℤ, pos, ltb_ℤ}
use bank_system.Model.{Uuid, Account, Transaction, LedgerEntry, TransferRequest}
use bank_system.External.{Env, Decimals}
use bank_system.Store.Db.{
  Db, numeric_fits, has_account, has_transaction, has_key, has_entry, transaction_violation,
  ledger_violation, balance_of,
}
use bank_system.Store.Queries.{is_active}
use bank_system.Store.Statements.{find_account}

-- The UUIDs that are drawn are not in the tables, and differ from one another.
pub record IsFresh (env : Env) (db : Db) : Type 0 where
  pub transaction_ids : (n : ℕ) → has_transaction (env.new_uuid n) db.transactions ≡ false
  pub entry_ids : (n : ℕ) → has_entry (env.new_uuid n) db.ledger ≡ false
  pub distinct : (m n : ℕ) → m ≢ n → env.new_uuid m ≢ env.new_uuid n

-- A transfer that the tables allow.
pub record IsAllowed (d : Decimals) (req : TransferRequest d.Decimal) (db : Db) : Type 0 where
  pub sender : Account
  pub receiver : Account
  pub sender_found : find_account req.from_account_id db ≡ some sender
  pub receiver_found : find_account req.to_account_id db ≡ some receiver
  pub sender_active : is_active sender.status ≡ true
  pub receiver_active : is_active receiver.status ≡ true
  pub differ : req.from_account_id ≢ req.to_account_id
  pub covered :
      d.less_than (d.from_numeric (balance_of db.ledger req.from_account_id)) req.amount ≡ false
  pub fits : numeric_fits (d.to_numeric req.amount) ≡ true
  pub positive : ltb_ℤ (pos 0) (d.to_numeric req.amount) ≡ true
  pub fresh_key : has_key req.idempotency_key db.transactions ≡ false

pub has_account_of_found :
    (id : Uuid) (db : Db) (a : Account)
    → find_account id db ≡ some a
    → has_account id db.accounts ≡ true
has_account_of_found id db a h = go db.accounts h
  where
    go : (l : _) → find (λ b. b.id == id) l ≡ some a → has_account id l ≡ true
    go [] h = absurd (cc)
    go (b ∷ l) h = ground (arith, go l)

pub transaction_insertable :
    (db : Db) (t : Transaction ℤ)
    → numeric_fits t.amount ≡ true
    → ltb_ℤ (pos 0) t.amount ≡ true
    → t.from_account_id ≢ t.to_account_id
    → has_transaction t.id db.transactions ≡ false
    → has_key t.idempotency_key db.transactions ≡ false
    → has_account t.from_account_id db.accounts ≡ true
    → has_account t.to_account_id db.accounts ≡ true
    → transaction_violation db t ≡ none
unfolding transaction_violation
transaction_insertable db t h1 h2 h3 h4 h5 h6 h7 = ground arith

pub entry_insertable :
    (db : Db) (e : LedgerEntry ℤ)
    → numeric_fits e.amount ≡ true
    → ltb_ℤ (pos 0) e.amount ≡ true
    → has_entry e.id db.ledger ≡ false
    → has_account e.account_id db.accounts ≡ true
    → has_transaction e.transaction_id db.transactions ≡ true
    → ledger_violation db e ≡ none
unfolding ledger_violation
entry_insertable db e h1 h2 h3 h4 h5 = ground arith

pub has_transaction-snoc : (l : _) (t : Transaction ℤ) → has_transaction t.id (l ++ t ∷ []) ≡ true
has_transaction-snoc l t = rw (any-append (λ u. u.id == t.id) l (t ∷ [])) (ground arith)

pub has_entry-snoc :
    (l : _) (e : LedgerEntry ℤ) (id : Uuid)
    → has_entry id l ≡ false
    → e.id ≢ id
    → has_entry id (l ++ e ∷ []) ≡ false
has_entry-snoc l e id h k = rw (any-append (λ u. u.id == id) l (e ∷ [])) (ground arith)
