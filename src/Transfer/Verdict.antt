-- ===== src/Transfer/Verdict.antt =====
-- What `TransferFunds` answers where no call of the outside fails, decided from the tables alone.
pub mod Refused
pub mod Answer
use bank_system.Prelude.{
  ℕ, ◌≡◌, ◌≢◌, refl, sym, ap, ◌∙◌, ◌⊎◌, inl, inr, Bool, true, false, not, Option, none, some, arith,
  Option-cases, Bool-cases, if◌then◌else◌, ◌==◌, String,
}
use mathlib.Core.Path.{subst}
use bank_system.Prelude.Int.{ℤ, pos, ltb_ℤ}
use bank_system.Errs.{Sentinel, sentinel, wrap, driver, Error}
use bank_system.Model.{Uuid, Time, Account, Transaction, pending, TransferRequest, TransferResponse}
use bank_system.External.{Result, ok, err, Constraint, Env, Decimals, Redis}
use bank_system.Store.Db.{Db, numeric_fits, has_key, transaction_violation, balance_of}
use bank_system.Store.Action.{
  Session, Action, begin, with_tx, new_uuid, ◌>>=◌, wrapping, raise_if, pure, raise, gets, lock,
  statement, modify, enforce,
}
use bank_system.Store.Queries.{is_active}
use bank_system.Store.Statements.{
  find_account, get_account_for_update, lock_row, create_transaction, insert_transaction_row,
  transaction_row,
}
use bank_system.Store.Runs.{
  IsCalm, get_account_for_update_run, get_balance_run, new_uuid_run, wrapping_run, raise_if_run,
}
use bank_system.Transfer.{
  World, transfer_response, lock_order, transfer_roles, transfer_tx, post_transfer,
  idempotency_key_of, idempotency_ttl, finish, run_claimed, transfer_funds,
}
use bank_system.Transfer.Effect.{posted_transaction}
use bank_system.Transfer.Idempotency.{transfer_funds-valid}
use bank_system.Transfer.Allowed.{IsFresh, IsAllowed}
use bank_system.Transfer.Success.{new_transaction, transfer_funds_succeeds}

pub some_same : {A : Type 0} {a b : A} → some a ≡ some b → a ≡ b
some_same e = cc

-- The first refusal of the checks on the accounts and the balance, or that of the rest.
abbrev pub first_refusal : (sends receives is_short : Bool) → Option Error → Option Error
first_refusal sends receives is_short rest =
    if not sends
    then some (wrap "sender " (sentinel Sentinel.account_not_active))
    else if not receives
    then some (wrap "receiver " (sentinel Sentinel.account_not_active))
    else if is_short
    then some (sentinel Sentinel.insufficient_funds)
    else rest

first_refusal-none :
    (x y z : Bool) (o : Option Error)
    → first_refusal x y z o ≡ none
    → (x ≡ true) × ((y ≡ true) × ((z ≡ false) × (o ≡ none)))
first_refusal-none true true false o h = (refl, (refl, (refl, h)))
first_refusal-none true true true o h = absurd (cc)
first_refusal-none true false z o h = absurd (cc)
first_refusal-none false y z o h = absurd (cc)

-- Which of the checks a refusal comes from.
pub data RefusedBy (x y z : Bool) (o : Option Error) (e : Error) : Type 0 where
  by_sender :
      x ≡ false → wrap "sender " (sentinel Sentinel.account_not_active) ≡ e → RefusedBy x y z o e
  by_receiver :
      x ≡ true
      → y ≡ false
      → wrap "receiver " (sentinel Sentinel.account_not_active) ≡ e
      → RefusedBy x y z o e
  by_balance :
      x ≡ true
      → y ≡ true
      → z ≡ true
      → sentinel Sentinel.insufficient_funds ≡ e
      → RefusedBy x y z o e
  by_rest : x ≡ true → y ≡ true → z ≡ false → o ≡ some e → RefusedBy x y z o e

pub first_refusal-some :
    (x y z : Bool) (o : Option Error) (e : Error)
    → first_refusal x y z o ≡ some e
    → RefusedBy x y z o e
first_refusal-some false y z o e h = by_sender refl (some_same h)
first_refusal-some true false z o e h = by_receiver refl refl (some_same h)
first_refusal-some true true true o e h = by_balance refl refl refl (some_same h)
first_refusal-some true true false o e h = by_rest refl refl refl h

module _ (env : Env) (d : Decimals) (req : TransferRequest d.Decimal) (db : Db) where
  -- The verdict on a request whose key has been granted: the error, if there is one.
  abbrev pub by_rows : Option Constraint → Option Error
  by_rows none = none
  by_rows (some c) = some (wrap "create transaction: " (driver (env.violation c)))

  abbrev pub row : Uuid → Transaction ℤ
  row txn_id = posted_transaction d req txn_id 0 pending

  abbrev pub by_accounts : Uuid → Account → Account → Option Error
  by_accounts txn_id a b =
      first_refusal (is_active a.status) (is_active b.status)
        (d.less_than (d.from_numeric (balance_of db.ledger req.from_account_id)) req.amount)
        (by_rows (transaction_violation db (row txn_id)))

  abbrev pub refusal_of : Uuid → Option Account → Option Account → Option Error
  refusal_of txn_id (some a) (some b) = by_accounts txn_id a b
  refusal_of txn_id _ _ = some (sentinel Sentinel.account_not_found)

  abbrev pub refusal : Uuid → Option Error
  refusal txn_id =
      refusal_of txn_id (find_account req.from_account_id db) (find_account req.to_account_id db)

-- The checks that a row which may be inserted has met.
insertable_row :
    (db : Db) (t : Transaction ℤ)
    → transaction_violation db t ≡ none
    → (numeric_fits t.amount ≡ true)
      × ((ltb_ℤ (pos 0) t.amount ≡ true) × (has_key t.idempotency_key db.transactions ≡ false))
unfolding transaction_violation
insertable_row db t h = (ground arith, (ground arith, ground arith))

-- The time of a row is in no constraint.
pub untimed :
    (d : Decimals) (req : TransferRequest d.Decimal) (db : Db) (txn_id : Uuid) (now now' : Time)
    → transaction_violation db (posted_transaction d req txn_id now pending)
      ≡ transaction_violation db (posted_transaction d req txn_id now' pending)
unfolding transaction_violation
untimed d req db txn_id now now' = refl

module _ (env : Env) (d : Decimals) (req : TransferRequest d.Decimal) (db : Db)
    (txn_id : Uuid) where
  -- No verdict against it: the tables allow it.
  accounts-IsAllowed :
      (a b : Account)
      → find_account req.from_account_id db ≡ some a
      → find_account req.to_account_id db ≡ some b
      → req.from_account_id ≢ req.to_account_id
      → by_accounts env d req db txn_id a b ≡ none
      → IsAllowed d req db
  accounts-IsAllowed a b a_found b_found differ h =
      let (a_active, (b_active, (covered, insertable))) = first_refusal-none _ _ _ _ h in
      let (fits, (positive, fresh_key)) = insertable_row db _ (by_rows_none _ insertable) in
      record {
        sender = a;
        receiver = b;
        sender_found = a_found;
        receiver_found = b_found;
        sender_active = a_active;
        receiver_active = b_active;
        differ = differ;
        covered = covered;
        fits = fits;
        positive = positive;
        fresh_key = fresh_key;
      }
    where
      by_rows_none : (c : Option Constraint) → by_rows env d req db c ≡ none → c ≡ none
      by_rows_none none h = refl
      by_rows_none (some c) h = absurd (cc)

  pub refusal_of-none :
      (fa fb : Option Account)
      → find_account req.from_account_id db ≡ fa
      → find_account req.to_account_id db ≡ fb
      → req.from_account_id ≢ req.to_account_id
      → refusal_of env d req db txn_id fa fb ≡ none
      → IsAllowed d req db
  refusal_of-none (some a) (some b) ea eb differ h = accounts-IsAllowed a b ea eb differ h
  refusal_of-none (some a) none ea eb differ h = absurd (cc)
  refusal_of-none none fb ea eb differ h = absurd (cc)
