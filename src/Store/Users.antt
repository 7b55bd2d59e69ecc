-- ===== src/Store/Users.antt =====
-- The statements of `Store` on users and accounts, with the constraints of those tables.
use bank_system.Prelude.{
  String, str_eq, text_length, Bool, not, ◌&&◌, List, [], ◌∷◌, ◌++◌, Option, none, some, find, any,
  length, ltb, ◌==◌, if◌then◌else◌,
}
use bank_system.Errs.{plain}
use bank_system.Model.{Uuid, Time, User, Account}
use bank_system.External.{Constraint, Env}
use bank_system.Store.Db.{Db, has_account}
use bank_system.Store.Action.{
  Action, pure, raise, gets, modify, ◌>>=◌, ◌>>◌, wrapping, enforce, auto_commit,
}
use bank_system.Store.Queries.{single}

abbrev pub has_user : Uuid → List User → Bool
has_user id = any (λ u. u.id == id)

abbrev pub has_username : String → List User → Bool
has_username name = any (λ u. str_eq u.username name)

abbrev pub has_email : String → List User → Bool
has_email email = any (λ u. str_eq u.email email)

-- `VARCHAR(50)` and the like.
abbrev user_fits : User → Bool
user_fits u =
    not (ltb 50 (text_length u.username))
    && not (ltb 255 (text_length u.email))
    && not (ltb 255 (text_length u.password_hash))
    && not (ltb 100 (text_length u.full_name))

-- The first constraint of the table `users` that a new row violates.
unfoldable pub user_violation : Db → User → Option Constraint
user_violation db u =
    if not (user_fits u)
    then some Constraint.text_too_long
    else if has_user u.id db.users
    then some Constraint.primary_key
    else if has_username u.username db.users
    then some Constraint.unique
    else if has_email u.email db.users
    then some Constraint.unique
    else none

-- The same of the table `accounts`.
unfoldable pub account_violation : Db → Account → Option Constraint
account_violation db a =
    if ltb 3 (text_length a.currency)
    then some Constraint.text_too_long
    else if has_account a.id db.accounts
    then some Constraint.primary_key
    else if not (has_user a.user_id db.users)
    then some Constraint.foreign_key
    else none

abbrev pub add_user : User → Db → Db
add_user u db = record db { users = db.users ++ u ∷ [] }

abbrev pub add_account : Account → Db → Db
add_account a db = record db { accounts = db.accounts ++ a ∷ [] }

-- The row that the INSERT makes of a user: the times are the columns' defaults.
abbrev pub user_row : User → Time → User
user_row u now = record u { created_at = now; updated_at = now }

abbrev pub account_row : Account → Time → Account
account_row a now = record a { created_at = now }

unfoldable pub found_user : Option User → Action User
found_user none = raise (plain "user not found")
found_user (some u) = pure u

module _ (env : Env) where
  unfoldable pub get_user_by_username : String → Action User
  unfolding found_user
  get_user_by_username username = do
    wrapping "get user by username: " (single env)
    row ← gets (λ s. find (λ u. str_eq u.username username) s.db.users)
    found_user row

  unfoldable pub get_user_by_email : String → Action User
  unfolding found_user
  get_user_by_email email = do
    wrapping "get user by email: " (single env)
    row ← gets (λ s. find (λ u. str_eq u.email email) s.db.users)
    found_user row

  unfoldable pub is_first_user : Action Bool
  is_first_user = do wrapping "count users: " (single env); gets (λ s. length s.db.users == 0)

  -- `INSERT INTO users`
  unfoldable pub insert_user_row : User → Action (Unit {0})
  insert_user_row u = do
    single env
    now ← gets (λ s. s.clock)
    broken ← gets (λ s. user_violation s.db (user_row u now))
    enforce env broken
    modify (λ s. record s { db = add_user (user_row u now) s.db })

  -- `INSERT INTO accounts`
  unfoldable pub insert_account_row : Account → Action (Unit {0})
  insert_account_row a = do
    single env
    now ← gets (λ s. s.clock)
    broken ← gets (λ s. account_violation s.db (account_row a now))
    enforce env broken
    modify (λ s. record s { db = add_account (account_row a now) s.db })

  unfoldable pub create_user : User → Action (Unit {0})
  create_user u = wrapping "create user: " (auto_commit env (insert_user_row u))

  unfoldable pub create_account : Account → Action (Unit {0})
  create_account a = wrapping "create account: " (auto_commit env (insert_account_row a))
