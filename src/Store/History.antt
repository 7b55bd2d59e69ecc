-- ===== src/Store/History.antt =====
-- The queries of `Store` behind the endpoints on accounts: the accounts of a user, a balance
-- without a lock, and a page of an account's history.
use bank_system.Prelude.{
  ℕ, Bool, ◌&&◌, ◌||◌, List, map, filter, length, take, drop, ◌==◌, ltb, leb, if◌then◌else◌,
}
use bank_system.Prelude.Sort.{sort}
use bank_system.Prelude.Int.{ℤ, pos, pos_part, ltb_ℤ}
use bank_system.Errs.{driver}
use bank_system.Model.{Uuid, Account, Transaction, TransactionHistoryItem}
use bank_system.External.{Env, Decimals}
use bank_system.Store.Db.{Db, balance_of}
use bank_system.Store.Action.{Action, pure, gets, ◌>>=◌, ◌>>◌, raise_if, wrapping}
use bank_system.Store.Queries.{single}

-- `ORDER BY created_at ASC`, where the ranks tell apart what was created at one time.
abbrev pub older : (Uuid → ℕ) → Account → Account → Bool
older rank a b =
    ltb a.created_at b.created_at || (a.created_at == b.created_at && leb (rank a.id) (rank b.id))

-- `ORDER BY t.created_at DESC`
abbrev pub newer : (Uuid → ℕ) → Transaction ℤ → Transaction ℤ → Bool
newer rank t u =
    ltb u.created_at t.created_at || (t.created_at == u.created_at && leb (rank t.id) (rank u.id))

-- `WHERE from_account_id = $1 OR to_account_id = $1`
abbrev pub involves : Uuid → Transaction ℤ → Bool
involves id t = t.from_account_id == id || t.to_account_id == id

abbrev pub accounts_of : (Uuid → ℕ) → Uuid → Db → List Account
accounts_of rank user_id db = sort (older rank) (filter (λ a. a.user_id == user_id) db.accounts)

-- The whole history of an account, the newest transaction first.
abbrev pub history_of : (Uuid → ℕ) → Uuid → Db → List (Transaction ℤ)
history_of rank id db = sort (newer rank) (filter (involves id) db.transactions)

abbrev pub history_item : (d : Decimals) → Uuid → Transaction ℤ → TransactionHistoryItem d.Decimal
history_item d id t = record {
  id = t.id;
  from_account_id = t.from_account_id;
  to_account_id = t.to_account_id;
  amount = d.from_numeric t.amount;
  status = t.status;
  idempotency_key = t.idempotency_key;
  created_at = t.created_at;
  updated_at = t.updated_at;
  direction = if t.from_account_id == id then "sent" else "received";
}

module _ (env : Env) where
  unfoldable pub get_accounts_by_user_id : Uuid → Action (List Account)
  get_accounts_by_user_id user_id = do
    rank ← gets (λ s. env.rank s.calls)
    wrapping "get accounts by user: " (single env)
    gets (λ s. accounts_of rank user_id s.db)

  module _ (d : Decimals) where
    unfoldable pub get_balance_read_only : Uuid → Action d.Decimal
    get_balance_read_only id = do
      wrapping "get balance read-only: " (single env)
      gets (λ s. d.from_numeric (balance_of s.db.ledger id))

    -- The server refuses an offset below 0. The limit is a number that its caller keeps above 0.
    unfoldable pub get_transaction_history :
        Uuid → (limit : ℕ) → (offset : ℤ) → Action (List (TransactionHistoryItem d.Decimal) × ℕ)
    get_transaction_history id limit offset = do
      wrapping "count transactions: " (single env)
      total ← gets (λ s. length (filter (involves id) s.db.transactions))
      rank ← gets (λ s. env.rank s.calls)
      wrapping "get transaction history: "
          (single env >> raise_if (ltb_ℤ offset (pos 0)) (driver "pq: OFFSET must not be negative"))
      rows ← gets (λ s. take limit (drop (pos_part offset) (history_of rank id s.db)))
      pure (map (history_item d id) rows, total)
