-- ===== src/Auth/Entry.antt =====
-- From a login to the endpoints behind `Protect`.
use bank_system.Prelude.{
  ◌+◌, ◌-◌, ◌<◌, String, ◌≡◌, ap, ◌∙◌, false, ◌&&◌, any, none, some, arith, ◌==◌,
}
use bank_system.Model.{Uuid, LoginRequest, AuthResponse}
use bank_system.External.{ok, Env, Redis}
use bank_system.Store.Action.{Session, gets, ◌>>=◌, wrapping, statement}
use bank_system.Store.Queries.{single, is_frozen}
use bank_system.Auth.Token.{
  Jwt, JwtLaws, token_ttl, whole_seconds, is_blacklisted, validate_token, Claims,
}
use bank_system.Auth.Middleware.{
  Context, Request, Handler, is_account_frozen, pass_active, pass_fresh, pass_valid, pass_cookie,
  protect,
}
use bank_system.Auth.Service.{Bcrypt, login}
use bank_system.Auth.Tickets.{validate_token-issue_token}
use bank_system.Auth.Login.{login-IsLetIn}
use bank_system.Transfer.{World}

is_account_frozen_run :
    (env : Env) (user_id : Uuid) (s : Session)
    → env.fault s.calls ≡ none
    → any (λ a. a.user_id == user_id && is_frozen a.status) s.db.accounts ≡ false
    → (s1 : Session) × (is_account_frozen env user_id s ≡ (ok false, s1)) × (s1.db ≡ s.db)
unfolding is_account_frozen single statement wrapping ◌>>=◌ gets
is_account_frozen_run env user_id s f h =
    ((is_account_frozen env user_id s).1, ground arith, ground arith)

module _ (r : Redis) (env : Env) (jwt : Jwt) (secret : String) (bcrypt : Bcrypt) {A B : Type 0}
    (next : Handler r.State B A) (ctx : Context) (req : Request B) (w : World r.State) where
  -- A request is passed on whose token validates, is not revoked and belongs to no frozen account.
  protect_run :
      (token : String) (claims : Claims)
      → req.cookie ≡ some token
      → validate_token jwt secret (env.now w.session.calls) token ≡ ok claims
      → is_blacklisted r claims.id w.redis ≡ ok false
      → env.fault w.session.calls ≡ none
      → any (λ a. a.user_id == claims.user_id && is_frozen a.status) w.session.db.accounts ≡ false
      → (s1 : Session) × (s1.db ≡ w.session.db)
        × (protect r env jwt secret next ctx req w
            ≡ next
                (record {
                  user_id = some claims.user_id;
                  username = some claims.username;
                  jti = some claims.id;
                })
                req
                (record w { session = s1 }))
  unfolding protect pass_cookie pass_valid pass_fresh pass_active
  protect_run token claims cookie valid fresh f live =
      let (s1, ran, same) = is_account_frozen_run env claims.user_id w.session f live in
      (
        s1,
        same,
        ap (λ c. pass_cookie r env jwt secret next ctx req c w) cookie
            ∙ ap (λ v. pass_valid r env jwt secret next ctx req v w) valid
            ∙ ap (λ b. pass_fresh r env jwt secret next claims ctx req b w) fresh
            ∙ ap
                (λ p.
                  pass_active r env jwt secret next claims ctx req p.0 (record w { session = p.1 }))
                ran,
      )

  -- With the token of a login in its cookie, a request reaches the handler behind `Protect` as the
  -- user who logged in, until the token expires, if the token has not been revoked, no account of
  -- the user is frozen, and the statement that asks for that does not fail.
  pub login-protect :
      JwtLaws jwt
      → (creds : LoginRequest) (s : Session) {resp : AuthResponse} {s' : Session}
      → login env jwt secret bcrypt creds s ≡ (ok resp, s')
      → req.cookie ≡ some resp.token
      → env.now w.session.calls < whole_seconds (env.now s'.calls + token_ttl)
      → is_blacklisted r (env.uuid_string (env.new_uuid (s'.calls - 1))) w.redis ≡ ok false
      → env.fault w.session.calls ≡ none
      → any (λ a. a.user_id == resp.user.id && is_frozen a.status) w.session.db.accounts ≡ false
      → (s1 : Session) × (s1.db ≡ w.session.db)
        × (protect r env jwt secret next ctx req w
            ≡ next
                (record {
                  user_id = some resp.user.id;
                  username = some resp.user.username;
                  jti = some (env.uuid_string (env.new_uuid (s'.calls - 1)));
                })
                req
                (record w { session = s1 }))
  login-protect laws creds s {resp} {s'} h cookie early fresh f live =
      let i = login-IsLetIn env jwt secret bcrypt creds s h in
      let (valid, _) =
        validate_token-issue_token jwt secret laws env (env.now s'.calls)
          (env.new_uuid (s'.calls - 1)) resp.user.id resp.user.username resp.user.is_system_user
          resp.token i.jti (env.now w.session.calls) i.issued early in
      protect_run resp.token _ cookie valid fresh f live
