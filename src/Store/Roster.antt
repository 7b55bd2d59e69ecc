-- ===== src/Store/Roster.antt =====
-- The invariant of users and accounts, and what the statements on them do.
use bank_system.Prelude.{
  String, str_eq, str_eq_iff, ◌≡◌, refl, ◌∙◌, ◌⊎◌, inl, inr, Bool, true, false, List, [], ◌∷◌, ◌++◌,
  All, All-append, All-imp, any, any-append, length, ◌≢◌, none, some, find, arith, ◌==◌,
}
use bank_system.Model.{User, Account}
use bank_system.External.{ok, Env}
use bank_system.Store.Db.{Db}
use bank_system.Store.Action.{
  Session, pure, raise, gets, modify, ◌>>=◌, wrapping, statement, enforce,
}
use bank_system.Store.Queries.{single}
use bank_system.Store.Atomicity.{auto_commit-cases}
use bank_system.Store.Users.{
  has_user, user_violation, account_violation, add_user, add_account, user_row, account_row,
  get_user_by_username, get_user_by_email, is_first_user, insert_user_row, insert_account_row,
  create_user, create_account,
}

-- No two elements are alike.
module _ {A : Type 0} (alike : A → A → Bool) where
  abbrev pub Apart : List A → Type 0
  Apart [] = Unit
  Apart (x ∷ xs) = (any (λ y. alike y x) xs ≡ false) × Apart xs

  pub Apart-snoc :
      ((x y : A) → alike x y ≡ alike y x)
      → (xs : List A) (x : A) → Apart xs
      → any (λ y. alike y x) xs ≡ false
      → Apart (xs ++ x ∷ [])
  Apart-snoc swaps [] x h e = (refl, tt)
  Apart-snoc swaps (y ∷ xs) x (h, hs) e = (
    rw (any-append (λ z. alike z y) xs (x ∷ [])) (ground (arith, swaps x y)),
    Apart-snoc swaps xs x hs (ground arith),
  )

abbrev pub same_username : User → User → Bool
same_username u v = str_eq u.username v.username

abbrev pub same_email : User → User → Bool
same_email u v = str_eq u.email v.email

-- Ids, names and addresses of users are unique, ids of accounts are, and accounts have owners.
pub record IsRoster (db : Db) : Type 0 where
  pub ids : Apart (λ u v. u.id == v.id) db.users
  pub usernames : Apart same_username db.users
  pub emails : Apart same_email db.users
  pub account_ids : Apart (λ a b. a.id == b.id) db.accounts
  pub owned : All (λ a. has_user a.user_id db.users ≡ true) db.accounts

str_eq_comm : (s t : String) → str_eq s t ≡ str_eq t s
str_eq_comm s t = ground (arith, str_eq_iff s t, str_eq_iff t s)

-- A row that meets the constraints keeps the invariant.
pub add_user-IsRoster :
    (db : Db) (u : User) → IsRoster db → user_violation db u ≡ none → IsRoster (add_user u db)
unfolding user_violation
add_user-IsRoster db u h v = record {
  ids = Apart-snoc _ (λ x y. ground arith) db.users u h.ids (ground arith);
  usernames =
      Apart-snoc same_username (λ x y. str_eq_comm x.username y.username) db.users u h.usernames
        (ground arith);
  emails =
      Apart-snoc same_email (λ x y. str_eq_comm x.email y.email) db.users u h.emails (ground arith);
  account_ids = h.account_ids;
  owned =
      All-imp (λ a. has_user a.user_id db.users ≡ true) _ db.accounts
        (λ a k. rw (any-append (λ v. v.id == a.user_id) db.users (u ∷ []), k) refl) h.owned;
}

pub add_account-IsRoster :
    (db : Db) (a : Account)
    → IsRoster db
    → account_violation db a ≡ none
    → IsRoster (add_account a db)
unfolding account_violation
add_account-IsRoster db a h v = record {
  ids = h.ids;
  usernames = h.usernames;
  emails = h.emails;
  account_ids = Apart-snoc _ (λ x y. ground arith) db.accounts a h.account_ids (ground arith);
  owned = All-append _ db.accounts (a ∷ []) h.owned (ground arith, tt);
}

module _ (env : Env) where
  -- The queries change no table.
  pub get_user_by_username_lem :
      (name : String) (s : Session)
      → ((get_user_by_username env name s).1.db ≡ s.db)
        × ((u : User)
            → (get_user_by_username env name s).0 ≡ ok u
            → find (λ v. str_eq v.username name) s.db.users ≡ some u)
  unfolding get_user_by_username single statement wrapping ◌>>=◌ gets pure raise
  get_user_by_username_lem name s = (ground arith, λ u h. ground arith)

  pub get_user_by_email_db :
      (email : String) (s : Session) → (get_user_by_email env email s).1.db ≡ s.db
  unfolding get_user_by_email single statement wrapping ◌>>=◌ gets pure raise
  get_user_by_email_db email s = ground arith

  pub is_first_user_lem :
      (s : Session)
      → ((is_first_user env s).1.db ≡ s.db)
        × ((b : Bool) → (is_first_user env s).0 ≡ ok b → b ≡ (length s.db.users == 0))
  unfolding is_first_user single statement wrapping ◌>>=◌ gets
  is_first_user_lem s = (ground arith, λ b h. ground arith)

  insert_user_row_ok :
      (u : User) (s : Session) {s1 : Session}
      → insert_user_row env u s ≡ (ok tt, s1)
      → (user_violation s.db (user_row u (env.now s.calls)) ≡ none)
        × (s1.db ≡ add_user (user_row u (env.now s.calls)) s.db)
  unfolding insert_user_row single statement ◌>>=◌ gets enforce modify
  insert_user_row_ok u s h = ground arith

  insert_account_row_ok :
      (a : Account) (s : Session) {s1 : Session}
      → insert_account_row env a s ≡ (ok tt, s1)
      → (account_violation s.db (account_row a (env.now s.calls)) ≡ none)
        × (s1.db ≡ add_account (account_row a (env.now s.calls)) s.db)
  unfolding insert_account_row single statement ◌>>=◌ gets enforce modify
  insert_account_row_ok a s h = ground arith

  -- What a call leaves that adds a row: the tables as they were, with an error, or the row that
  -- met the constraints.
  pub create_user_cases :
      (u : User) (s : Session)
      → (((create_user env u s).0 ≢ ok tt) × ((create_user env u s).1.db ≡ s.db))
        ⊎ ((user_violation s.db (user_row u (env.now s.calls)) ≡ none)
            × ((create_user env u s).1.db ≡ add_user (user_row u (env.now s.calls)) s.db))
  unfolding create_user wrapping
  create_user_cases u s = elim (auto_commit-cases env (insert_user_row env u) s) [
    | inl (e, failed, same) ↦ inl (ground arith, same)
    | inr (_, s1, ran, kept) ↦
        let (fine, added) = insert_user_row_ok u s ran in inr (fine, kept ∙ added)
  ]

  pub create_account_cases :
      (a : Account) (s : Session)
      → (((create_account env a s).0 ≢ ok tt) × ((create_account env a s).1.db ≡ s.db))
        ⊎ ((account_violation s.db (account_row a (env.now s.calls)) ≡ none)
            × ((create_account env a s).1.db ≡ add_account (account_row a (env.now s.calls)) s.db))
  unfolding create_account wrapping
  create_account_cases a s = elim (auto_commit-cases env (insert_account_row env a) s) [
    | inl (e, failed, same) ↦ inl (ground arith, same)
    | inr (_, s1, ran, kept) ↦
        let (fine, added) = insert_account_row_ok a s ran in inr (fine, kept ∙ added)
  ]
