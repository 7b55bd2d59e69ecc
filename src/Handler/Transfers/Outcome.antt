-- ===== src/Handler/Transfers/Outcome.antt =====
-- What the status of a transfer's response says.
use bank_system.Prelude.{String, ◌≡◌, ◌≢◌, refl, ◌⊎◌, inl, inr, some, arith}
use bank_system.Errs.{Error, wrap}
use bank_system.Model.{TransferRequest, TransferResponse}
use bank_system.External.{Result, ok, err, Env, Decimals, Redis}
use bank_system.Auth.Middleware.{Context, Request, payload}
use bank_system.Transfer.{World, transfer_funds}
use bank_system.Transfer.Effect.{IsPosted}
use bank_system.Transfer.Outcome.{IsLost, transfer_funds-IsPosted, transfer_funds-err_keeps}
use bank_system.Handler.Transfers.{map_error_to_http, answer_transfer, handle_transfer}

-- Wrapping an error with a text in front keeps its status.
map_error_to_http-wrap :
    (p : String) (e : Error) → map_error_to_http (wrap p e) ≡ map_error_to_http e
unfolding map_error_to_http
map_error_to_http-wrap p e = refl

map_error_to_http_failed : (e : Error) → (map_error_to_http e ≡ 200) → ⊥
unfolding map_error_to_http
map_error_to_http_failed e h = ground arith

module _ (r : Redis) (env : Env) (d : Decimals) (ctx : Context) (body : TransferRequest d.Decimal)
    (req : Request (TransferRequest d.Decimal)) (given : req.body ≡ some body)
    (w : World r.State) where
  -- The response to a transfer whose body could be decoded has status 200 exactly if the transfer
  -- was carried out, and then holds the id of its transaction; any other status comes with tables
  -- as they were, or a COMMIT whose reply was lost.
  pub handle_transfer_sound :
      ((resp : TransferResponse) × ((handle_transfer r env d ctx req w).0
          ≡ record { status = 200; body = payload resp })
        × IsPosted d body resp.transaction_id w.session.db
            (handle_transfer r env d ctx req w).1.session.db)
      ⊎ ((e : Error) × ((handle_transfer r env d ctx req w).0.status ≡ map_error_to_http e)
          × (map_error_to_http e ≢ 200)
          × (((handle_transfer r env d ctx req w).1.session.db ≡ w.session.db)
              ⊎ IsLost r env d body e w.session.db
                  (handle_transfer r env d ctx req w).1.session.db))
  unfolding handle_transfer
  handle_transfer_sound = rw (given, handle_transfer) (go (transfer_funds r env d body w) refl)
    where
      go :
          (p : Result TransferResponse × World r.State)
          → transfer_funds r env d body w ≡ p
          → ((resp : TransferResponse) × (answer_transfer p.0
                ≡ record { status = 200; body = payload resp })
              × IsPosted d body resp.transaction_id w.session.db p.1.session.db)
            ⊎ ((e : Error) × ((answer_transfer p.0).status ≡ map_error_to_http e)
                × (map_error_to_http e ≢ 200)
                × ((p.1.session.db ≡ w.session.db)
                    ⊎ IsLost r env d body e w.session.db p.1.session.db))
      go (ok resp, w') h = inl (resp, refl, (transfer_funds-IsPosted r env d body w h).0)
      go (err e, w') h =
          inr (e, refl, map_error_to_http_failed e, transfer_funds-err_keeps r env d body w h)
