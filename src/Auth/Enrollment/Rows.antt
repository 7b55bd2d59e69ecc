-- ===== src/Auth/Enrollment/Rows.antt =====
-- The rows of a registration that are left in the tables.
use bank_system.Prelude.{String, ◌≡◌, ◌⊎◌, Bool, none}
use bank_system.Model.{Uuid, Time, User, Account, RegisterRequest}
use bank_system.Store.Db.{Db}
use bank_system.Store.Users.{
  user_violation, account_violation, add_user, add_account, user_row, account_row,
}
use bank_system.Auth.Service.{new_user, default_account}

module _ (req : RegisterRequest) (hash : String) (is_first : Bool) (before : Db) where
  -- The row of the new user, which met the constraints.
  pub record IsUserRow (u : User) : Type 0 where
    pub id : Uuid
    pub now : Time
    pub row : u ≡ user_row (new_user req id hash is_first) now
    pub insertable : user_violation before u ≡ none

  -- The row of an account that belongs to the user.
  pub record IsAccountRow (u : User) (a : Account) : Type 0 where
    pub id : Uuid
    pub now : Time
    pub row : a ≡ account_row (default_account id u.id) now
    pub insertable : account_violation (add_user u before) a ≡ none

  -- Both rows are there.
  abbrev pub HasBoth : Db → Type 0
  HasBoth after =
      (u : User) × (a : Account) × IsUserRow u
      × IsAccountRow u a
      × (after ≡ add_account a (add_user u before))

  -- No row is there, or the user's alone, or both.
  abbrev pub HasLeft : Db → Type 0
  HasLeft after =
      (after ≡ before) ⊎ (((u : User) × IsUserRow u × (after ≡ add_user u before)) ⊎ HasBoth after)
