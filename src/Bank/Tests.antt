-- ===== src/Bank/Tests.antt =====
-- The refinement at concrete calls.
use bank_system.Prelude.{List, [], ◌∷◌}
use bank_system.Prelude.Int.{pos}
use bank_system.Bank.{bank_of, Call, transfer, fund, History, serve_calls}
use bank_system.Bank.Refinement.{serve_calls-History}
use bank_system.Fixtures.{five_places, five_places-laws, key_list, lossy, tables, world, request}

-- A funding, a transfer and the same transfer again, where every reply to a COMMIT is lost.
abbrev calls : List (Call five_places)
calls =
    fund (record { to_account_id = 2; amount = pos 700_000 }) 1
    ∷ transfer request
    ∷ transfer request
    ∷ []

serve_calls-History_example :
    let p = serve_calls five_places key_list lossy calls world in
    History five_places p.0 (bank_of tables) (bank_of p.1.session.db)
serve_calls-History_example =
    serve_calls-History five_places five_places-laws key_list lossy calls world
