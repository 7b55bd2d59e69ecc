-- ===== src/Store/Queries.antt =====
-- The statements of `Store` that run by themselves, outside of any transaction of the program.
use bank_system.Prelude.{
  ℕ, ◌%◌, Bool, true, false, ◌&&◌, List, Option, none, some, filter, length, get_elem?, ◌==◌,
}
use bank_system.Errs.{Sentinel, sentinel}
use bank_system.Model.{Uuid, Account, AccountStatus, active, frozen}
use bank_system.External.{Env}
use bank_system.Store.Db.{Db}
use bank_system.Store.Action.{Action, pure, raise, gets, ◌>>=◌, ◌>>◌, wrapping, statement}

abbrev pub is_active : AccountStatus → Bool
is_active active = true
is_active _ = false

abbrev pub is_frozen : AccountStatus → Bool
is_frozen frozen = true
is_frozen _ = false

-- A statement that is a transaction of its own: its clock is the server's.
unfoldable pub single : Env → Action (Unit {0})
unfolding statement
single env s = statement env (record s { clock = env.now s.calls })

-- `WHERE user_id = $1 AND status = 'Active'`
abbrev pub active_accounts_of : Uuid → Db → List Account
active_accounts_of user_id db = filter (λ a. a.user_id == user_id && is_active a.status) db.accounts

-- `LIMIT 1` with no ORDER BY: any of the rows.
abbrev pub any_row : {A : Type 0} → ℕ → List A → Option A
any_row i rows = get_elem? rows (i % length rows)

unfoldable pub found_account : Option Account → Action Account
found_account none = raise (sentinel Sentinel.account_not_found)
found_account (some a) = pure a

module _ (env : Env) where
  unfoldable pub get_account_by_user_id : Uuid → Action Account
  unfolding single found_account
  get_account_by_user_id user_id = do
    choice ← gets (λ s. env.pick s.calls)
    wrapping "get account by user: " (single env)
    row ← gets (λ s. any_row choice (active_accounts_of user_id s.db))
    found_account row
