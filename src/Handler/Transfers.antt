-- ===== src/Handler/Transfers.antt =====
-- internal/handler/handler.go: the endpoint of transfers.
pub mod Outcome
use bank_system.Prelude.{ℕ, String, Bool, ◌||◌, Option, none, some, if◌then◌else◌}
use bank_system.Errs.{Sentinel, Error, errors_is, message}
use bank_system.Model.{TransferRequest, TransferResponse}
use bank_system.External.{Result, ok, err, Env, Decimals, Redis}
use bank_system.Auth.Middleware.{Context, Request, Response, payload, Handler, refuse}
use bank_system.Transfer.{World, transfer_funds}

unfoldable pub map_error_to_http : Error → ℕ
unfolding errors_is
map_error_to_http e =
    if errors_is e Sentinel.insufficient_funds
    then 422
    else if errors_is e Sentinel.account_not_found
    then 404
    else if errors_is e Sentinel.account_not_active
    then 403
    else if errors_is e Sentinel.duplicate_transaction
    then 409
    else if errors_is e Sentinel.same_account
    then 400
    else if errors_is e Sentinel.invalid_amount
    then 400
    else 500

unfoldable pub answer_transfer : Result TransferResponse → Response TransferResponse
answer_transfer (ok resp) = record { status = 200; body = payload resp }
answer_transfer (err e) = refuse (map_error_to_http e) (message e)

module _ (r : Redis) (env : Env) (d : Decimals) where
  unfoldable pub handle_transfer : Handler r.State (TransferRequest d.Decimal) TransferResponse
  unfolding answer_transfer
  handle_transfer ctx req w = elim req.body [
    | none ↦ (refuse 400 "invalid request body", w)
    | some body ↦ let (result, w') = transfer_funds r env d body w in (answer_transfer result, w')
  ]
