-- ===== src/Auth/Middleware.antt =====
-- internal/auth/middleware.go: `Protect`, the values that it puts into the request's context, and
-- the functions that read them there.
use bank_system.Prelude.{ℕ, String, Bool, true, false, ◌&&◌, Option, none, some, any, ◌==◌}
use bank_system.Model.{Uuid, nil_uuid}
use bank_system.External.{Result, ok, err, Env, Redis}
use bank_system.Store.Action.{Action, gets, ◌>>◌, wrapping}
use bank_system.Store.Queries.{single, is_frozen}
use bank_system.Auth.Token.{Claims, Jwt, validate_token, is_blacklisted}
use bank_system.Transfer.{World}

-- `context.Context`: the values under `CtxUserID`, `CtxUsername` and `CtxJTI`.
pub record Context : Type 0 where
  pub user_id : Option Uuid
  pub username : Option String
  pub jti : Option String

-- The context of a request as the server hands it to the mux.
abbrev pub background : Context
background = record { user_id = none; username = none; jti = none }

abbrev pub user_id_from_ctx : Context → Uuid
user_id_from_ctx ctx = elim ctx.user_id [ some v ↦ v | none ↦ nil_uuid ]

abbrev pub jti_from_ctx : Context → String
jti_from_ctx ctx = elim ctx.jti [ some v ↦ v | none ↦ "" ]

-- A request: the cookie `vault_token`, and the body as far as it could be decoded.
pub record Request (B : Type 0) : Type 0 where
  pub cookie : Option String
  pub body : Option B

-- What a handler writes: a status with an error text, or with a payload.
pub data Body (A : Type 0) : Type 0 where
  error_body : String → Body A
  payload : A → Body A

pub record Response (A : Type 0) : Type 0 where
  pub status : ℕ
  pub body : Body A

abbrev pub Handler : Type 0 → Type 0 → Type 0 → Type 0
Handler R B A = Context → Request B → World R → Response A × World R

abbrev pub refuse : {A : Type 0} → ℕ → String → Response A
refuse status text = record { status = status; body = error_body text }

unfoldable pub is_account_frozen : Env → Uuid → Action Bool
is_account_frozen env user_id = do
  wrapping "check frozen: " (single env)
  gets (λ s. any (λ a. a.user_id == user_id && is_frozen a.status) s.db.accounts)

module _ (r : Redis) (env : Env) (jwt : Jwt) (secret : String) {B A : Type 0}
    (next : Handler r.State B A) where
  -- The last step of the pipeline: the handler behind runs with the claims in its context.
  unfoldable pub pass_active :
      Claims → Context → Request B → Result Bool → World r.State → Response A × World r.State
  pass_active claims ctx req (err e) w = (refuse 500 "authentication error", w)
  pass_active claims ctx req (ok true) w = (refuse 403 "account is frozen", w)
  pass_active claims ctx req (ok false) w =
      next
        (record {
          user_id = some claims.user_id;
          username = some claims.username;
          jti = some claims.id;
        })
        req w

  unfoldable pub pass_fresh :
      Claims → Context → Request B → Result Bool → World r.State → Response A × World r.State
  unfolding pass_active
  pass_fresh claims ctx req (err e) w = (refuse 500 "authentication error", w)
  pass_fresh claims ctx req (ok true) w = (refuse 401 "token has been revoked", w)
  pass_fresh claims ctx req (ok false) w =
      let (frozen, session) = is_account_frozen env claims.user_id w.session in
      pass_active claims ctx req frozen (record w { session = session })

  unfoldable pub pass_valid :
      Context → Request B → Result Claims → World r.State → Response A × World r.State
  unfolding pass_fresh
  pass_valid ctx req (err e) w = (refuse 401 "invalid or expired token", w)
  pass_valid ctx req (ok claims) w =
      pass_fresh claims ctx req (is_blacklisted r claims.id w.redis) w

  unfoldable pub pass_cookie :
      Context → Request B → Option String → World r.State → Response A × World r.State
  unfolding pass_valid
  pass_cookie ctx req none w = (refuse 401 "missing authentication cookie", w)
  pass_cookie ctx req (some token) w =
      pass_valid ctx req (validate_token jwt secret (env.now w.session.calls) token) w

  unfoldable pub protect : Handler r.State B A
  unfolding pass_cookie
  protect ctx req w = pass_cookie ctx req req.cookie w
