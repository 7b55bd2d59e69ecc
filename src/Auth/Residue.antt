-- ===== src/Auth/Residue.antt =====
-- What `Register` leaves, however it ends.
use bank_system.Prelude.{
  ℕ, String, ◌≡◌, refl, sym, ◌⊎◌, inl, inr, Bool, true, ◌==◌, none, length, [], ◌∷◌, All-imp,
  any-append,
}
use mathlib.Core.Path.{subst}
use bank_system.Model.{Uuid, User, Account, RegisterRequest}
use bank_system.External.{Env, ok}
use bank_system.Store.Db.{Db, has_account}
use bank_system.Store.Action.{Session}
use bank_system.Store.Users.{add_user, add_account, user_violation, account_violation}
use bank_system.Store.Consistency.{IsConsistent, IsBooked, IsLinked}
use bank_system.Store.Roster.{IsRoster, add_user-IsRoster, add_account-IsRoster}
use bank_system.Auth.Token.{Jwt}
use bank_system.Auth.Service.{Bcrypt, bcrypt_cost, register}
use bank_system.Auth.Enrollment.{HasLeft}
use bank_system.Auth.Registration.{register_elim}

-- More users and accounts break no reference.
pub add_user-IsConsistent : (db : Db) (u : User) → IsConsistent db → IsConsistent (add_user u db)
add_user-IsConsistent db u h = record {
  booked =
      All-imp (IsBooked db) (IsBooked (add_user u db)) db.transactions
        (λ t b. record {
          settled = b.settled;
          positive = b.positive;
          differ = b.differ;
          from_known = b.from_known;
          to_known = b.to_known;
          legs = b.legs;
        })
        h.booked;
  linked =
      All-imp (IsLinked db) (IsLinked (add_user u db)) db.ledger
        (λ e l. record {
          positive = l.positive;
          account_known = l.account_known;
          transaction_known = l.transaction_known;
        })
        h.linked;
  ids = h.ids;
  keys = h.keys;
  entry_ids = h.entry_ids;
}

still_known :
    (db : Db) (a : Account) (id : Uuid)
    → has_account id db.accounts ≡ true
    → has_account id (add_account a db).accounts ≡ true
still_known db a id h = rw (any-append (λ b. b.id == id) db.accounts (a ∷ []), h) refl

pub add_account-IsConsistent :
    (db : Db) (a : Account) → IsConsistent db → IsConsistent (add_account a db)
add_account-IsConsistent db a h = record {
  booked =
      All-imp (IsBooked db) (IsBooked (add_account a db)) db.transactions
        (λ t b. record {
          settled = b.settled;
          positive = b.positive;
          differ = b.differ;
          from_known = still_known db a t.from_account_id b.from_known;
          to_known = still_known db a t.to_account_id b.to_known;
          legs = b.legs;
        })
        h.booked;
  linked =
      All-imp (IsLinked db) (IsLinked (add_account a db)) db.ledger
        (λ e l. record {
          positive = l.positive;
          account_known = still_known db a e.account_id l.account_known;
          transaction_known = l.transaction_known;
        })
        h.linked;
  ids = h.ids;
  keys = h.keys;
  entry_ids = h.entry_ids;
}

module _ (env : Env) (jwt : Jwt) (secret : String) (bcrypt : Bcrypt) (req : RegisterRequest) where
  pub HasLeft_elim :
      (P : Db → Type 0) (hash : String) (is_first : Bool) (before after : Db)
      → P before
      → ((u : User) → user_violation before u ≡ none → P before → P (add_user u before))
      → ((db : Db) (a : Account) → account_violation db a ≡ none → P db → P (add_account a db))
      → HasLeft req hash is_first before after
      → P after
  HasLeft_elim P hash is_first before after kept user account (inl same) = subst P (sym same) kept
  HasLeft_elim P hash is_first before after kept user account (inr (inl (u, row, e))) =
      subst P (sym e) (user u row.insertable kept)
  HasLeft_elim P hash is_first before after kept user account (inr (inr (u, a, row, owned, e))) =
      subst P (sym e) (account _ a owned.insertable (user u row.insertable kept))

  -- Whatever `Register` returns, no two users share a name or an address, every account has a user,
  -- and the books stay consistent.
  pub register-IsRoster :
      (s : Session)
      → IsRoster s.db
      → IsConsistent s.db
      → IsRoster (register env jwt secret bcrypt req s).1.db
        × IsConsistent (register env jwt secret bcrypt req s).1.db
  register-IsRoster s roster consistent = (
    register_elim env jwt secret bcrypt req IsRoster s roster (λ hash salt after _.
        HasLeft_elim IsRoster hash _ s.db after roster (λ u fine r. add_user-IsRoster s.db u r fine)
          (λ db a fine r. add_account-IsRoster db a r fine)),
    register_elim env jwt secret bcrypt req IsConsistent s consistent (λ hash salt after _.
        HasLeft_elim IsConsistent hash _ s.db after consistent
          (λ u _ c. add_user-IsConsistent s.db u c) (λ db a _ c. add_account-IsConsistent db a c)),
  )

  -- However `Register` ends, it has left the tables as they were, or added a user with the hash of
  -- the password, or that user and an account of the user's: an error may leave a user with no
  -- account.
  pub register-HasLeft :
      (s : Session)
      → ((register env jwt secret bcrypt req s).1.db ≡ s.db)
        ⊎ ((hash : String) × (salt : ℕ) × (bcrypt.generate salt req.password bcrypt_cost ≡ ok hash)
            × HasLeft req hash
                (length s.db.users == 0)
                s.db
                (register env jwt secret bcrypt req s).1.db)
  register-HasLeft s =
      register_elim env jwt secret bcrypt req
        (λ db.
          (db ≡ s.db)
          ⊎ ((hash : String) × (salt : ℕ) × (bcrypt.generate salt req.password bcrypt_cost
                ≡ ok hash)
              × HasLeft req hash (length s.db.users == 0) s.db db))
        s (inl refl) (λ hash salt after hashed left. inr (hash, salt, hashed, left))
