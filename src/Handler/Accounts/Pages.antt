-- ===== src/Handler/Accounts/Pages.antt =====
-- The pages of a history.
use bank_system.Prelude.{
  ℕ, suc, zero, ◌+◌, ◌-◌, ◌*◌, String, true, ◌≡◌, ap, ◌∙◌, inl, inr, some, List, map, take, drop,
  length, filter, ◌≤◌, ◌<◌, arith,
}
use native.Mathlib.Omega.{div_fact, mod_fact}
use bank_system.Prelude.Sort.{page_at, pages_from, pages_from-drop}
use bank_system.Prelude.Int.{ℤ, pos_part}
use bank_system.Model.{Uuid, Transaction, TransactionHistoryItem, PaginatedHistory}
use bank_system.External.{ok, Env, Decimals}
use bank_system.Store.Action.{Session, ◌>>=◌, wrapping, gets, pure, raise_if}
use bank_system.Store.Queries.{single}
use bank_system.Store.History.{involves, history_of, history_item, get_transaction_history}
use bank_system.Auth.Middleware.{Context, user_id_from_ctx, Request, Response, payload, refuse}
use bank_system.Transfer.{World}
use bank_system.Handler.Accounts.{
  Params, Parsers, parse_int_param, keep_page, keep_per_page, default_page, default_per_page,
  offset_of, total_pages_of, serve_history, handle_get_history,
}
use bank_system.Handler.Accounts.Owned.{is_owned}
use bank_system.Handler.Accounts.Ownership.{Excuse, handle_owned_sound}

ceil_bound : (total k q r : ℕ) → suc k * q + r ≡ total + k → r < suc k → total ≤ q * suc k
ceil_bound total k q r split rest = omega arith

total_pages_enough : (total k : ℕ) → total ≤ total_pages_of total (suc k) * suc k
total_pages_enough total k =
    let one : suc k - 1 ≡ k = omega arith in
    rw one (ceil_bound total k _ _ (div_fact (total + k) k) (mod_fact (total + k) k))

-- The pages that the endpoint announces, one behind the other, are the whole history.
total_pages_of-pages :
    {A : Type 0} (per_page : ℕ) (rows : List A)
    → 1 ≤ per_page
    → pages_from per_page 0 (total_pages_of (length rows) per_page) rows ≡ rows
total_pages_of-pages zero rows h = absurd (omega arith)
total_pages_of-pages (suc k) rows h =
    let from_first : 0 + total_pages_of (length rows) (suc k)
        ≡ total_pages_of (length rows) (suc k) =
      omega arith in
    let first : 0 * suc k ≡ 0 = omega arith in
    pages_from-drop (suc k) 0 _ rows (rw from_first (total_pages_enough (length rows) k))
    ∙ ap (λ n. drop n rows) first

module _ (env : Env) (d : Decimals) (id : Uuid) (limit : ℕ) (offset : ℤ) (s : Session) where
  -- The order in which the query finds the history.
  abbrev rows : List (Transaction ℤ)
  rows = history_of (env.rank (s.calls + 1)) id s.db

  get_transaction_history_ok :
      ((get_transaction_history env d id limit offset s).1.db ≡ s.db)
      × ((items : List (TransactionHistoryItem d.Decimal)) (total : ℕ)
          → (get_transaction_history env d id limit offset s).0 ≡ ok (items, total)
          → (items ≡ map (history_item d id) (take limit (drop (pos_part offset) rows)))
            × (total ≡ length (filter (involves id) s.db.transactions)))
  unfolding get_transaction_history single wrapping ◌>>=◌ gets pure raise_if
  get_transaction_history_ok = (ground arith, λ items total h. ground arith)

module _ (ps : Parsers) (env : Env) (d : Decimals) {R B : Type 0} (params : Params) (ctx : Context)
    (req : Request B) (w : World R) where
  abbrev pub page_of : ℕ
  page_of = keep_page (parse_int_param ps params.page default_page)

  abbrev pub per_page_of : ℕ
  per_page_of = keep_per_page (parse_int_param ps params.per_page default_per_page)

  -- The page that was asked for, of the whole history of an account that the user of the context
  -- has.
  pub record IsPage (answer : Response (PaginatedHistory d.Decimal)) : Type 0 where
    pub account_id : Uuid
    pub rank : Uuid → ℕ
    pub parsed : ps.parse_uuid params.id ≡ some account_id
    pub owned : is_owned (user_id_from_ctx ctx) account_id w.session.db.accounts ≡ true
    pub answered :
        let rows = history_of rank account_id w.session.db in
        answer ≡ record {
          status = 200;
          body = payload (record {
            items = map (history_item d account_id) (page_at per_page_of (page_of - 1) rows);
            total = length rows;
            page = page_of;
            per_page = per_page_of;
            total_pages = total_pages_of (length rows) per_page_of;
          });
        }

  abbrev pub IsNoPage : Response (PaginatedHistory d.Decimal) → Type 0
  IsNoPage answer =
      (status : ℕ) × (text : String) × Excuse ps env params ctx w status
      × (answer ≡ refuse status text)

  -- The history endpoint changes no table, whatever page is asked for.
  pub handle_get_history_db :
      (handle_get_history ps env d params ctx req w).1.session.db ≡ w.session.db
  unfolding handle_get_history serve_history
  handle_get_history_db =
      elim (handle_owned_sound ps env (serve_history ps env d params) params ctx req w) [
        | inl t ↦ t.db
        | inr v ↦
            let (kept, _) =
              get_transaction_history_ok env d v.account_id per_page_of
                (offset_of page_of per_page_of) v.session in
            ap (λ s. s.db) v.after ∙ kept ∙ v.same_db
      ]
