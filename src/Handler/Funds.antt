-- ===== src/Handler/Funds.antt =====
-- internal/handler/funding_handler.go: the endpoint that mints money, and its gate.
pub mod Gate
use bank_system.Prelude.{
  ℕ, String, Bool, true, false, List, Option, none, some, find, ◌==◌, if◌then◌else◌,
}
use bank_system.Errs.{Error, message}
use bank_system.Model.{Uuid, User, nil_uuid, FundRequest, FundResponse}
use bank_system.External.{Result, ok, err, Env, Decimals, Redis}
use bank_system.Store.Action.{Session, Action, gets, ◌>>=◌, ◌>>◌, wrapping}
use bank_system.Store.Queries.{single}
use bank_system.Auth.Token.{Jwt}
use bank_system.Auth.Middleware.{
  Context, user_id_from_ctx, Request, Response, payload, Handler, refuse, protect,
}
use bank_system.Transfer.{World}
use bank_system.Funding.{fund_account}

unfoldable pub answer_fund : {A : Type 0} → Result (FundResponse A) → Response (FundResponse A)
answer_fund (ok resp) = record { status = 200; body = payload resp }
answer_fund (err e) = refuse 422 (message e)

-- `SELECT is_system_user FROM users WHERE id = $1`, and false where there is no row.
unfoldable pub is_system_user_in_db : Env → Uuid → Action Bool
is_system_user_in_db env user_id = do
  wrapping "check system user: " (single env)
  gets (λ s. elim (find (λ u. u.id == user_id) s.db.users) [
    | none ↦ false
    | some u ↦ u.is_system_user
  ])

module _ (r : Redis) (env : Env) where
  module _ {B A : Type 0} (next : Handler r.State B A) where
    unfoldable pub pass_system :
        Context → Request B → Result Bool → World r.State → Response A × World r.State
    pass_system ctx req (err e) w = (refuse 500 "authorization check failed", w)
    pass_system ctx req (ok false) w = (refuse 403 "forbidden: system user access required", w)
    pass_system ctx req (ok true) w = next ctx req w

    unfoldable pub require_system_user : Handler r.State B A
    unfolding pass_system
    require_system_user ctx req w =
        if user_id_from_ctx ctx == nil_uuid
        then (refuse 401 "not authenticated", w)
        else (let (is_system, session) =
              is_system_user_in_db env (user_id_from_ctx ctx) w.session in
            pass_system ctx req is_system (record w { session = session }))

  module _ (d : Decimals) where
    unfoldable pub handle_fund : Handler r.State (FundRequest d.Decimal) (FundResponse d.Decimal)
    unfolding answer_fund
    handle_fund ctx req w = elim req.body [
      | none ↦ (refuse 400 "invalid request body", w)
      | some body ↦
          let (result, session) = fund_account env d body (user_id_from_ctx ctx) w.session in
          (answer_fund result, record w { session = session })
    ]

    -- The handler that `RegisterFundingRoutes` mounts.
    unfoldable pub fund_route :
        Jwt → String → Handler r.State (FundRequest d.Decimal) (FundResponse d.Decimal)
    fund_route jwt secret = require_system_user (protect r env jwt secret handle_fund)
