-- ===== src/Auth/Login.antt =====
-- `Login`: whom it lets in.
use bank_system.Prelude.{
  ℕ, ◌+◌, ◌-◌, String, str_eq, ◌≡◌, refl, sym, ap, ◌∙◌, true, not, find, some, arith,
}
use mathlib.Core.Path.{subst}
use bank_system.Model.{LoginRequest, AuthResponse}
use bank_system.External.{ok, Env}
use bank_system.Store.Db.{Db}
use bank_system.Store.Action.{Session, Action, pure, raise_if}
use bank_system.Store.Users.{get_user_by_username}
use bank_system.Store.Keeps.{>>=_reads}
use bank_system.Store.Inversion.{>>=_ok, raise_if_ok}
use bank_system.Store.Roster.{get_user_by_username_lem}
use bank_system.Auth.Token.{Jwt, issue_token}
use bank_system.Auth.Service.{Bcrypt, lift, masked, issue, login}
use bank_system.Auth.Issuing.{issue_db, issue_ok}

masked_ok :
    {A : Type 0} (m : Action A) (s : Session) {a : A} {s' : Session}
    → masked m s ≡ (ok a, s')
    → m s ≡ (ok a, s')
unfolding masked
masked_ok m s h = ground arith

module _ (env : Env) (jwt : Jwt) (secret : String) (bcrypt : Bcrypt) (req : LoginRequest) where
  -- Whom a login that succeeds has let in, and the token that it issued, with its last two calls.
  pub record IsLetIn (db : Db) (calls : ℕ) (resp : AuthResponse) : Type 0 where
    pub known : find (λ u. str_eq u.username req.username) db.users ≡ some resp.user
    pub active : resp.user.is_active ≡ true
    pub right_password : bcrypt.compare_hash resp.user.password_hash req.password ≡ ok tt
    pub jti : String
    pub issued :
        issue_token jwt secret env
          (env.now calls)
          (env.new_uuid (calls - 1))
          resp.user.id
          resp.user.username
          resp.user.is_system_user
        ≡ ok (resp.token, jti)

  -- `Login` changes no table.
  pub login_db : (s : Session) → (login env jwt secret bcrypt req s).1.db ≡ s.db
  unfolding login raise_if masked pure
  login_db s =
      let P : Db → Type 0 = λ db. db ≡ s.db in
      >>=_reads P s.db (raise_if _ _) _ s refl refl refl λ _ s1 _ db1.
        >>=_reads P s.db (masked (get_user_by_username env req.username)) _ s1
          (get_user_by_username_lem env req.username s1).0 db1 refl
          λ user s2 _ db2. >>=_reads P s.db (raise_if _ _) _ s2 refl db2 refl λ _ s3 _ db3.
            >>=_reads P s.db (masked (lift (bcrypt.compare_hash user.password_hash req.password))) _
              s3 refl db3 refl
              λ _ s4 _ db4.
                >>=_reads P s.db (issue env jwt secret user.id user.username user.is_system_user) _
                  s4 (issue_db env jwt secret user.id user.username user.is_system_user s4) db4 refl
                  λ _ s5 _ db5. db5

  -- A login that succeeds has found the user by name, who is active, and whose hash the password
  -- fits; the token was issued for that user.
  pub login-IsLetIn :
      (s : Session) {resp : AuthResponse} {s' : Session}
      → login env jwt secret bcrypt req s ≡ (ok resp, s')
      → IsLetIn s.db s'.calls resp
  unfolding login pure
  login-IsLetIn s {resp} {s'} h = >>=_ok _ _ s h λ _ s1 e1 h1. >>=_ok _ _ s1 h1 λ user s2 e2 h2.
      >>=_ok _ _ s2 h2 λ _ s3 e3 h3. >>=_ok _ _ s3 h3 λ _ s4 e4 h4.
        >>=_ok _ _ s4 h4 λ token s5 e5 h5.
          let (reads, found) = get_user_by_username_lem env req.username s1 in
          let (_, start) = raise_if_ok _ _ s e1 in
          let looked = masked_ok (get_user_by_username env req.username) s1 e2 in
          let (is_live, _) = raise_if_ok (not user.is_active) _ s2 e3 in
          let compared =
            masked_ok (lift (bcrypt.compare_hash user.password_hash req.password)) s3 e4 in
          let (issued, _, counted) =
            issue_ok env jwt secret user.id user.username user.is_system_user s4 e5 in
          let answered : resp ≡ record { user = user; token = token.0 } = cc in
          let last : s'.calls ≡ s4.calls + 1 = sym (ap (λ x. x.1.calls) h5) ∙ counted in
          let before_last : s4.calls + 1 - 1 ≡ s4.calls = omega arith in
          rw answered (record {
            known =
                subst (λ db. find (λ u. str_eq u.username req.username) db.users ≡ some user)
                  (ap (λ s. s.db) start) (found user (ap (λ x. x.0) looked));
            active = ground arith;
            right_password = ap (λ x. x.0) compared;
            jti = token.1;
            issued = rw (last, before_last) issued;
          })
