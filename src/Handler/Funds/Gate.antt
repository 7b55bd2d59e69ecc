-- ===== src/Handler/Funds/Gate.antt =====
-- The order of the middlewares in front of the funding endpoint.
use bank_system.Prelude.{String, ◌≡◌, refl}
use bank_system.Model.{FundRequest}
use bank_system.External.{Env, Decimals, Redis}
use bank_system.Auth.Token.{Jwt}
use bank_system.Auth.Middleware.{Request, background, refuse}
use bank_system.Transfer.{World}
use bank_system.Handler.Funds.{fund_route, require_system_user}

-- The endpoint that mints money refuses every request, whatever its cookie and its body, with 401
-- and changes nothing: the gate reads the user's id before `Protect` has put it into the context.
pub fund_route_unauthorized :
    (r : Redis) (env : Env) (d : Decimals) (jwt : Jwt) (secret : String)
    (req : Request (FundRequest d.Decimal)) (w : World r.State)
    → fund_route r env d jwt secret background req w ≡ (refuse 401 "not authenticated", w)
unfolding fund_route require_system_user
fund_route_unauthorized r env d jwt secret req w = refl
