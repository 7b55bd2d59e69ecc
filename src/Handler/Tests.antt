-- ===== src/Handler/Tests.antt =====
-- The theorems on the endpoints at concrete inputs.
use bank_system.Prelude.{◌≡◌, ◌≢◌, ◌⊎◌, refl, some, true}
use bank_system.Prelude.Int.{ℤ, pos}
use bank_system.Errs.{Error}
use bank_system.Model.{FundRequest, TransferRequest, TransferResponse}
use bank_system.Transfer.Effect.{IsPosted}
use bank_system.Transfer.Outcome.{IsLost}
use bank_system.Auth.Middleware.{Request, payload, refuse, background}
use bank_system.Handler.Transfers.{handle_transfer, map_error_to_http}
use bank_system.Handler.Transfers.Outcome.{handle_transfer_sound}
use bank_system.Handler.Funds.{fund_route}
use bank_system.Handler.Funds.Gate.{fund_route_unauthorized}
use bank_system.Fixtures.{five_places, key_list, calm, tables, world, request, jwt_of, asha}

-- A token of the system user, and 7 for account 3.
abbrev mint : Request (FundRequest ℤ)
mint = record {
  cookie = some "token";
  body = some (record { to_account_id = 3; amount = pos 700_000 });
}

fund_route_unauthorized_example :
    fund_route key_list calm five_places
      (jwt_of (record asha { user_id = 1; is_system_user = true }))
      "secret"
      background
      mint
      world
    ≡ (refuse 401 "not authenticated", world)
fund_route_unauthorized_example =
    fund_route_unauthorized key_list calm five_places
      (jwt_of (record asha { user_id = 1; is_system_user = true })) "secret" mint world

abbrev send : Request (TransferRequest ℤ)
send = record { cookie = some "token"; body = some request }

handle_transfer_sound_example :
    let (answer, w) = handle_transfer key_list calm five_places background send world in
    ((resp : TransferResponse) × (answer ≡ record { status = 200; body = payload resp })
      × IsPosted five_places request resp.transaction_id tables w.session.db)
    ⊎ ((e : Error) × (answer.status ≡ map_error_to_http e)
        × (map_error_to_http e ≢ 200)
        × ((w.session.db ≡ tables)
            ⊎ IsLost key_list calm five_places request e tables w.session.db))
handle_transfer_sound_example =
    handle_transfer_sound key_list calm five_places background request send refl world
