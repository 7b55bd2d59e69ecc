-- ===== src/Auth/Admission.antt =====
-- A registration, the login after it, and the requests after that, in one line.
use bank_system.Prelude.{
  ◌+◌, String, str_eq, str_eq_refl, ◌≡◌, refl, sym, ap, ◌∙◌, Bool, true, false, not, ◌||◌, List, [],
  ◌∷◌, ◌++◌, find, none, some, arith,
}
use mathlib.Core.Path.{subst}
use bank_system.Model.{Uuid, User, LoginRequest, RegisterRequest, AuthResponse}
use bank_system.External.{ok, Env}
use bank_system.Store.Db.{Db}
use bank_system.Store.Action.{
  Session, Action, pure, gets, ◌>>=◌, wrapping, statement, new_uuid, raise,
}
use bank_system.Store.Queries.{single}
use bank_system.Store.Runs.{IsCalm, >>=_ok, raise_if_run}
use bank_system.Store.Users.{user_violation, has_username, get_user_by_username, found_user}
use bank_system.Auth.Token.{Claims, Jwt, issue_token, signed_token}
use bank_system.Auth.Service.{Bcrypt, BcryptLaws, bcrypt_cost, lift, masked, issue, register, login}
use bank_system.Auth.Registration.{register-IsEnrolled}
use bank_system.Auth.Tickets.{claims_of}

find-snoc :
    (name : String) (l : List User) (u : User)
    → has_username name l ≡ false
    → u.username ≡ name
    → find (λ v. str_eq v.username name) (l ++ u ∷ []) ≡ some u
find-snoc name [] u h e = rw e (rw (str_eq_refl name) refl)
find-snoc name (v ∷ l) u h e = ground (arith, find-snoc name l u)

user_violation_username :
    (db : Db) (u : User) → user_violation db u ≡ none → has_username u.username db.users ≡ false
unfolding user_violation
user_violation_username db u h = ground arith

module _ (env : Env) (calm : IsCalm env) (jwt : Jwt) (secret : String) (bcrypt : Bcrypt) where
  get_user_by_username_run :
      (name : String) (s : Session) (u : User)
      → find (λ v. str_eq v.username name) s.db.users ≡ some u
      → (s1 : Session) × (get_user_by_username env name s ≡ (ok u, s1))
  unfolding get_user_by_username found_user single statement wrapping ◌>>=◌ gets pure raise
  get_user_by_username_run name s u h =
      let f = calm.faultless s.calls in ((get_user_by_username env name s).1, ground arith)

  masked_run :
      {A : Type 0} (m : Action A) (s : Session) {a : A} {s1 : Session}
      → m s ≡ (ok a, s1)
      → masked m s ≡ (ok a, s1)
  unfolding masked
  masked_run m s h = rw (h, masked) refl

  abbrev Signs : Type 0
  Signs = (c : Claims) → (token : String) × (jwt.sign secret c ≡ ok token)

  issue_run :
      (id : Uuid) (name : String) (system : Bool) (s : Session)
      → Signs
      → (token : String × String) × (s1 : Session) × (issue env jwt secret id name system s
          ≡ (ok token, s1))
  unfolding issue issue_token signed_token ◌>>=◌ new_uuid gets
  issue_run id name system s signs =
      let (t, e) =
        signs (claims_of env (env.now (s.calls + 1)) (env.new_uuid s.calls) id name system) in
      (
        (t, env.uuid_string (env.new_uuid s.calls)),
        (issue env jwt secret id name system s).1,
        ground arith,
      )

  -- A user who is known, active and gives the right password is let in.
  login_run :
      (req : LoginRequest) (s : Session) (u : User)
      → (str_eq req.username "" || str_eq req.password "") ≡ false
      → find (λ v. str_eq v.username req.username) s.db.users ≡ some u
      → u.is_active ≡ true
      → bcrypt.compare_hash u.password_hash req.password ≡ ok tt
      → Signs
      → (resp : AuthResponse) × ((login env jwt secret bcrypt req s).0 ≡ ok resp) × (resp.user ≡ u)
  unfolding login pure
  login_run req s u given found live right signs =
      let (s1, looked) = get_user_by_username_run req.username s u found in
      let (token, s2, issued) = issue_run u.id u.username u.is_system_user s1 signs in
      (
        record { user = u; token = token.0 },
        >>=_ok _ _ s (raise_if_run _ _ s given) (
            >>=_ok _ _ s (masked_run _ s looked) (
              >>=_ok _ _ s1 (raise_if_run _ _ s1 (ap not live)) (
                >>=_ok _ _ s1
                  (masked_run (lift (bcrypt.compare_hash u.password_hash req.password)) s1
                    (ap (λ r. (r, s1)) right))
                  (>>=_ok _ _ s1 issued refl)))),
        refl,
      )

  -- Who has registered can log in with the same name and password, as the user of the registration,
  -- where no call fails, tokens can be signed, and the tables are those that it left.
  pub register-login :
      (req : RegisterRequest) (s : Session) {resp : AuthResponse} {s' : Session}
      → BcryptLaws bcrypt
      → ((c : Claims) → (token : String) × (jwt.sign secret c ≡ ok token))
      → register env jwt secret bcrypt req s ≡ (ok resp, s')
      → (resp' : AuthResponse) × ((login env jwt secret bcrypt
            (record { username = req.username; password = req.password })
            s').0
          ≡ ok resp')
        × (resp'.user.id ≡ resp.user.id)
        × (resp'.user.username ≡ req.username)
  register-login req s {resp} {s'} laws signs h =
      let (complete, (hash, salt, hashed, e)) = register-IsEnrolled env jwt secret bcrypt req s h in
      let free = user_violation_username s.db e.user e.user_row.insertable in
      let named : e.user.username ≡ req.username = ap (λ u. u.username) e.user_row.row in
      let found = find-snoc e.user.username s.db.users e.user free refl in
      let (resp', let_in, same) =
        login_run (record { username = req.username; password = req.password }) s' e.user
          (ground arith)
          (subst (λ db. find (λ v. str_eq v.username req.username) db.users ≡ some e.user)
            (sym e.rows)
            (subst
              (λ name. find (λ v. str_eq v.username name) (s.db.users ++ e.user ∷ []) ≡ some e.user)
              named found))
          (ap (λ u. u.is_active) e.user_row.row)
          (ap (λ u. bcrypt.compare_hash u.password_hash req.password) e.user_row.row
            ∙ laws.compare-generate salt req.password bcrypt_cost hash hashed)
          signs in
      (
        resp',
        let_in,
        ap (λ u. u.id) same ∙ sym (ap (λ u. u.id) e.answered),
        ap (λ u. u.username) same ∙ named,
      )
