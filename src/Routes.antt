-- ===== src/Routes.antt =====
-- cmd/api/main.go: the routes behind the rate limiter. The limiter's keys in Redis and those of the
-- services differ, and so the two states are apart.
pub mod Transfers
mod Tests
use bank_system.Prelude.{ℕ, ◌*◌, String, str_eq, Bool}
use bank_system.Model.{TransferRequest, TransferResponse, LoginRequest, RegisterRequest}
use bank_system.Config.{Config}
use bank_system.External.{Env, Decimals, Redis}
use bank_system.RateLimit.Sets.{SetServer}
use bank_system.RateLimit.{RateLimiterConfig, Formats, Origin, Limited, limit}
use bank_system.Auth.Token.{Jwt, second}
use bank_system.Auth.Middleware.{background, Request, Response, protect}
use bank_system.Auth.Service.{Bcrypt}
use bank_system.Handler.Transfers.{handle_transfer}
use bank_system.Handler.Sessions.{Reply, Greeting, handle_login, handle_register}
use bank_system.Transfer.{World}

-- Five requests in a minute.
abbrev pub five_a_minute : RateLimiterConfig
five_a_minute = record { max_requests = 5; window = 60 * second }

-- `isSecure`
abbrev pub is_production : Config → Bool
is_production cfg = str_eq cfg.env "production"

-- What a route behind the limiter answers and leaves.
abbrev pub RouteResult : SetServer → Redis → Type 0 → Type 0
RouteResult z r A = (Limited A × World r.State) × z.State

module _ (z : SetServer) (f : Formats) (r : Redis) (env : Env) (jwt : Jwt) (cfg : Config)
    (origin : Origin) where
  -- `POST /api/v1/transfers`
  unfoldable pub transfer_route :
      (d : Decimals)
      → Request (TransferRequest d.Decimal)
      → z.State
      → World r.State
      → RouteResult z r (Response TransferResponse)
  transfer_route d req s w =
      limit z f five_a_minute
        (protect r env jwt cfg.jwt_secret (handle_transfer r env d) background req) "transfers"
        origin (env.now w.session.calls) s w

  module _ (bcrypt : Bcrypt) where
    -- `POST /api/v1/auth/login`
    unfoldable pub login_route :
        Request LoginRequest → z.State → World r.State → RouteResult z r (Reply Greeting)
    login_route req s w =
        limit z f five_a_minute (handle_login env jwt cfg.jwt_secret bcrypt (is_production cfg) req)
          "auth:login" origin (env.now w.session.calls) s w

    -- `POST /api/v1/auth/register`
    unfoldable pub register_route :
        Request RegisterRequest → z.State → World r.State → RouteResult z r (Reply Greeting)
    register_route req s w =
        limit z f five_a_minute
          (handle_register env jwt cfg.jwt_secret bcrypt (is_production cfg) req) "auth:register"
          origin (env.now w.session.calls) s w
