-- ===== src/Handler/Sessions.antt =====
-- internal/handler/auth_handler.go: registration, login and logout.
pub mod Outcome
pub mod Logout
mod Tests
use bank_system.Prelude.{
  ℕ, ◌+◌, String, str_append, str_eq, text_length, text_take, Bool, ◌||◌, Option, none, some, ltb,
  if◌then◌else◌,
}
use bank_system.Errs.{Sentinel, Error, errors_is, message}
use bank_system.Model.{Time, User, RegisterRequest, LoginRequest, AuthResponse}
use bank_system.External.{Result, ok, err, Env, Redis}
use bank_system.Store.Action.{Session}
use bank_system.Auth.Token.{Jwt, token_ttl}
use bank_system.Auth.Middleware.{
  Context, background, jti_from_ctx, Request, Body, error_body, payload, Response, refuse,
}
use bank_system.Auth.Service.{Bcrypt, Cookie, token_cookie, cleared_cookie, register, login, logout}
use bank_system.Transfer.{World}

unfoldable pub map_auth_error_to_http : Error → ℕ
unfolding errors_is
map_auth_error_to_http e =
    if errors_is e Sentinel.invalid_credentials
    then 401
    else if errors_is e Sentinel.username_taken || errors_is e Sentinel.email_taken
    then 409
    else if errors_is e Sentinel.missing_fields
    then 400
    else if errors_is e Sentinel.account_not_active
    then 403
    else 500

-- A response and the cookie that it sets.
pub record Reply (A : Type 0) : Type 0 where
  pub response : Response A
  pub set_cookie : Option Cookie

abbrev pub plainly : {A : Type 0} → Response A → Reply A
plainly answer = record { response = answer; set_cookie = none }

-- The message and the user of a response to a registration or a login.
abbrev pub Greeting : Type 0
Greeting = String × User

-- The answer to a registration or a login: the token goes into the cookie alone.
unfoldable pub greet : (secure : Bool) → ℕ → String → Result AuthResponse → Reply Greeting
unfolding token_cookie map_auth_error_to_http
greet secure status text (err e) = plainly (refuse (map_auth_error_to_http e) (message e))
greet secure status text (ok resp) = record {
  response = record { status = status; body = payload (text, resp.user) };
  set_cookie = some (token_cookie resp.token secure);
}

module _ (env : Env) (jwt : Jwt) (secret : String) (bcrypt : Bcrypt) (secure : Bool)
    {R : Type 0} where
  unfoldable pub handle_register : Request RegisterRequest → World R → Reply Greeting × World R
  unfolding greet
  handle_register req w = elim req.body [
    | none ↦ (plainly (refuse 400 "invalid request body"), w)
    | some body ↦
        let (result, session) = register env jwt secret bcrypt body w.session in
        (greet secure 201 "registration successful" result, record w { session = session })
  ]

  unfoldable pub handle_login : Request LoginRequest → World R → Reply Greeting × World R
  unfolding greet
  handle_login req w = elim req.body [
    | none ↦ (plainly (refuse 400 "invalid request body"), w)
    | some body ↦
        let (result, session) = login env jwt secret bcrypt body w.session in
        (greet secure 200 "login successful" result, record w { session = session })
  ]

abbrev pub cookie_hint : String → String
cookie_hint value =
    str_append "missing token context, cookie: " (str_append (text_take 8 value) "...")

-- The answer where no middleware has put a token's id into the context: `cookie.Value[:8]` panics on
-- a shorter value, and then there is no response. A cookie's value is ASCII.
unfoldable pub refuse_logout : Option String → Option (Reply String)
refuse_logout none = some (plainly (refuse 401 "not authenticated"))
refuse_logout (some value) =
    if ltb (text_length value) 8 then none else some (plainly (refuse 400 (cookie_hint value)))

unfoldable pub answer_logout : Result (Unit {0}) → Reply String
unfolding cleared_cookie
answer_logout (err e) = plainly (refuse 500 "logout failed")
answer_logout (ok _) = record {
  response = record { status = 200; body = payload "logged out successfully" };
  set_cookie = some cleared_cookie;
}

module _ (r : Redis) (env : Env) {B : Type 0} where
  unfoldable pub handle_logout :
      Context → Request B → World r.State → Option (Reply String) × World r.State
  unfolding refuse_logout answer_logout
  handle_logout ctx req w =
      if str_eq (jti_from_ctx ctx) ""
      then (refuse_logout req.cookie, w)
      else (let now = env.now w.session.calls in
          let (result, redis) = logout r now (jti_from_ctx ctx) (now + token_ttl) w.redis in
          (some (answer_logout result), record w { redis = redis }))

  -- The handler that `RegisterAuthRoutes` mounts, on the context of a request as it comes in.
  unfoldable pub logout_route : Request B → World r.State → Option (Reply String) × World r.State
  unfolding handle_logout
  logout_route = handle_logout background
