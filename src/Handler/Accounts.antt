-- ===== src/Handler/Accounts.antt =====
-- internal/handler/account_handler.go: the endpoints that read accounts, balances and histories.
-- The package google/uuid is a parameter, and so are `strconv.Atoi` and `Decimal.StringFixed`.
pub mod Owned
pub mod Ownership
pub mod Balances
pub mod Pages
mod Tests
use bank_system.Prelude.{
  ℕ, ◌+◌, ◌-◌, ◌*◌, ◌/◌, ◌%◌, ◌^◌, String, str_eq, Bool, List, Option, none, some, ◌⊎◌, inl, inr,
  find, length, ◌==◌, ltb, if◌then◌else◌,
}
use bank_system.Prelude.Int.{ℤ, pos, negsuc, pos_part, ltb_ℤ}
use bank_system.Errs.{Error}
use bank_system.Model.{
  Uuid, nil_uuid, Account, TransactionHistoryItem, PaginatedHistory, BalanceResponse,
}
use bank_system.External.{Result, ok, err, Env, Decimals}
use bank_system.Store.Action.{Session, Action}
use bank_system.Store.History.{
  get_accounts_by_user_id, get_balance_read_only, get_transaction_history,
}
use bank_system.Auth.Middleware.{
  Context, user_id_from_ctx, Request, Response, payload, Handler, refuse,
}
use bank_system.Transfer.{World}

abbrev pub default_page : ℕ
default_page = 1

abbrev pub default_per_page : ℕ
default_per_page = 20

abbrev pub max_per_page : ℕ
max_per_page = 100

-- The texts of the path and of the query, empty where the query has no such key.
pub record Params : Type 0 where
  pub id : String
  pub page : String
  pub per_page : String

pub record Parsers : Type 0 where
  pub parse_uuid : String → Option Uuid
  pub atoi : String → Option ℤ

abbrev pub parse_int_param : Parsers → String → ℕ → ℤ
parse_int_param ps val fallback =
    if str_eq val "" then pos fallback else elim (ps.atoi val) [ none ↦ pos fallback | some n ↦ n ]

-- `if page < 1 { page = 1 }`
abbrev pub keep_page : ℤ → ℕ
keep_page page = if ltb_ℤ page (pos 1) then 1 else pos_part page

-- The two tests on `perPage`; the first leaves 20, which the second does not change.
abbrev pub keep_per_page : ℤ → ℕ
keep_per_page n =
    if ltb_ℤ n (pos 1)
    then default_per_page
    else if ltb_ℤ (pos max_per_page) n
    then max_per_page
    else pos_part n

-- A number in a Go `int`, of 64 bits.
abbrev pub wrap64 : ℕ → ℤ
wrap64 n = let m = n % 2 ^ 64 in if ltb m (2 ^ 63) then pos m else negsuc (2 ^ 64 - 1 - m)

abbrev pub offset_of : (page per_page : ℕ) → ℤ
offset_of page per_page = wrap64 ((page - 1) * per_page)

-- `int(math.Ceil(float64(total) / float64(perPage)))`, which is exact below 2^53 rows.
abbrev pub total_pages_of : (total per_page : ℕ) → ℕ
total_pages_of total per_page = (total + (per_page - 1)) / per_page

-- `verifyOwnership` on the reply of the store: a refusal, or the account.
unfoldable pub check_owner : {A : Type 0} → Uuid → Result (List Account) → Response A ⊎ Account
check_owner account_id (err e) = inl (refuse 500 "failed to verify account ownership")
check_owner account_id (ok accounts) = elim (find (λ a. a.id == account_id) accounts) [
  | none ↦ inl (refuse 403 "account does not belong to authenticated user")
  | some a ↦ inr a
]

unfoldable pub answer_accounts : Result (List Account) → Response (List Account × ℕ)
answer_accounts (err e) = refuse 500 "failed to fetch accounts"
answer_accounts (ok accounts) = record { status = 200; body = payload (accounts, length accounts) }

-- The start of the endpoints on one account, after its owner is checked.
unfoldable pub serve_owned :
    {R A : Type 0}
    → (Account → Session → Response A × Session)
    → Response A ⊎ Account
    → World R
    → Response A × World R
serve_owned serve (inl refused) w = (refused, w)
serve_owned serve (inr account) w =
    let (answer, session) = serve account w.session in (answer, record w { session = session })

module _ (ps : Parsers) (env : Env) {R B : Type 0} where
  unfoldable pub handle_get_accounts : Handler R B (List Account × ℕ)
  unfolding answer_accounts
  handle_get_accounts ctx req w =
      if user_id_from_ctx ctx == nil_uuid
      then (refuse 401 "not authenticated", w)
      else (let (accounts, session) =
            get_accounts_by_user_id env (user_id_from_ctx ctx) w.session in
          (answer_accounts accounts, record w { session = session }))

  unfoldable pub handle_owned :
      {A : Type 0} → (Uuid → Account → Session → Response A × Session) → Params → Handler R B A
  unfolding check_owner serve_owned
  handle_owned serve params ctx req w = elim (ps.parse_uuid params.id) [
    | none ↦ (refuse 400 "invalid account id", w)
    | some account_id ↦
        let (accounts, session) = get_accounts_by_user_id env (user_id_from_ctx ctx) w.session in
        serve_owned (serve account_id) (check_owner account_id accounts)
          (record w { session = session })
  ]

module _ (ps : Parsers) (env : Env) (d : Decimals) (string_fixed_4 : d.Decimal → String) where
  unfoldable pub answer_balance : Uuid → Account → Result d.Decimal → Response BalanceResponse
  answer_balance id account (err e) = refuse 500 "failed to compute balance"
  answer_balance id account (ok balance) = record {
    status = 200;
    body =
        payload (record {
          account_id = id;
          currency = account.currency;
          balance = string_fixed_4 balance;
        });
  }

  unfoldable pub serve_balance : Uuid → Account → Session → Response BalanceResponse × Session
  unfolding answer_balance
  serve_balance id account s =
      let (balance, s') = get_balance_read_only env d id s in
      (answer_balance id account balance, s')

  unfoldable pub handle_get_balance : {R B : Type 0} → Params → Handler R B BalanceResponse
  unfolding handle_owned serve_balance
  handle_get_balance = handle_owned ps env serve_balance

module _ (ps : Parsers) (env : Env) (d : Decimals) where
  unfoldable pub answer_history :
      (page per_page : ℕ)
      → Result (List (TransactionHistoryItem d.Decimal) × ℕ)
      → Response (PaginatedHistory d.Decimal)
  answer_history page per_page (err e) = refuse 500 "failed to fetch history"
  answer_history page per_page (ok (items, total)) = record {
    status = 200;
    body = payload (record {
      items = items;
      total = total;
      page = page;
      per_page = per_page;
      total_pages = total_pages_of total per_page;
    });
  }

  unfoldable pub serve_history :
      Params → Uuid → Account → Session → Response (PaginatedHistory d.Decimal) × Session
  unfolding answer_history
  serve_history params id account s =
      let page = keep_page (parse_int_param ps params.page default_page) in
      let per_page = keep_per_page (parse_int_param ps params.per_page default_per_page) in
      let (rows, s') = get_transaction_history env d id per_page (offset_of page per_page) s in
      (answer_history page per_page rows, s')

  unfoldable pub handle_get_history :
      {R B : Type 0} → Params → Handler R B (PaginatedHistory d.Decimal)
  unfolding handle_owned serve_history
  handle_get_history params = handle_owned ps env (serve_history params) params
