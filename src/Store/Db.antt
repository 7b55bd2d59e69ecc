-- ===== src/Store/Db.antt =====
-- The tables of sql/V1__init_schema.sql, their constraints, and the sum that gives a balance.
use bank_system.Prelude.{
  ◌^◌, Bool, not, ◌&&◌, List, [], ◌∷◌, map, Option, none, some, ltb, ◌==◌, any, if◌then◌else◌,
}
use bank_system.Prelude.Int.{ℤ, pos, pos_part, neg_part, ◌+ℤ◌, ◌-ℤ◌, ltb_ℤ}
use bank_system.Model.{
  Uuid, Time, User, Account, Transaction, TransactionStatus, LedgerEntry, EntryType, credit, debit,
}
use bank_system.External.{Constraint}

pub record Db : Type 0 where
  pub users : List User
  pub accounts : List Account
  pub transactions : List (Transaction ℤ)
  pub ledger : List (LedgerEntry ℤ)

-- NUMERIC(18,4) holds 18 digits, four of them behind the point.
abbrev pub numeric_fits : ℤ → Bool
numeric_fits v = ltb (pos_part v) (10 ^ 18) && ltb (neg_part v) (10 ^ 18)

abbrev pub has_account : Uuid → List Account → Bool
has_account id = any (λ a. a.id == id)

abbrev pub has_transaction : Uuid → List (Transaction ℤ) → Bool
has_transaction id = any (λ t. t.id == id)

abbrev pub has_key : Uuid → List (Transaction ℤ) → Bool
has_key key = any (λ t. t.idempotency_key == key)

abbrev pub has_entry : Uuid → List (LedgerEntry ℤ) → Bool
has_entry id = any (λ e. e.id == id)

-- The first constraint of the table `transactions` that a new row violates.
unfoldable pub transaction_violation : Db → Transaction ℤ → Option Constraint
transaction_violation db t =
    if not (numeric_fits t.amount)
    then some Constraint.numeric_overflow
    else if not (ltb_ℤ (pos 0) t.amount)
    then some Constraint.positive_amount
    else if t.from_account_id == t.to_account_id
    then some Constraint.different_accounts
    else if has_transaction t.id db.transactions
    then some Constraint.primary_key
    else if has_key t.idempotency_key db.transactions
    then some Constraint.unique
    else if not (has_account t.from_account_id db.accounts)
    then some Constraint.foreign_key
    else if not (has_account t.to_account_id db.accounts)
    then some Constraint.foreign_key
    else none

-- The same of the table `ledger`.
unfoldable pub ledger_violation : Db → LedgerEntry ℤ → Option Constraint
ledger_violation db e =
    if not (numeric_fits e.amount)
    then some Constraint.numeric_overflow
    else if not (ltb_ℤ (pos 0) e.amount)
    then some Constraint.positive_amount
    else if has_entry e.id db.ledger
    then some Constraint.primary_key
    else if not (has_account e.account_id db.accounts)
    then some Constraint.foreign_key
    else if not (has_transaction e.transaction_id db.transactions)
    then some Constraint.foreign_key
    else none

-- `CASE WHEN entry_type = 'Credit' THEN amount WHEN entry_type = 'Debit' THEN -amount END`
abbrev pub signed : EntryType → ℤ → ℤ
signed credit v = v
signed debit v = pos 0 -ℤ v

-- The SUM over the rows of one account, and 0 where there are none.
unfoldable pub balance_of : List (LedgerEntry ℤ) → Uuid → ℤ
balance_of [] id = pos 0
balance_of (e ∷ l) id =
    (if e.account_id == id then signed e.entry_type e.amount else pos 0) +ℤ balance_of l id

-- `UPDATE transactions SET status = $1 WHERE id = $2`, with the trigger that sets `updated_at`.
unfoldable pub set_status :
    Uuid → TransactionStatus → Time → List (Transaction ℤ) → List (Transaction ℤ)
set_status id status now =
    map (λ t. if t.id == id then record t { status = status; updated_at = now } else t)
