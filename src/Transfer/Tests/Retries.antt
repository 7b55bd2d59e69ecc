-- ===== src/Transfer/Tests/Retries.antt =====
-- The theorems on retries at concrete inputs.
use bank_system.Prelude.{String, ◌≡◌, ◌≢◌, refl, List, [], ◌∷◌, true, arith}
use bank_system.Prelude.Int.{ℤ}
use bank_system.Model.{TransferRequest, TransferResponse}
use bank_system.External.{ok}
use bank_system.Transfer.{World, idempotency_key_of, transfer_funds}
use bank_system.Transfer.Idempotency.{IsRefusal, transfer_funds_twice, transfer_funds-has_key}
use bank_system.Transfer.Tests.{request_served, served}
use bank_system.Fixtures.{five_places, key_list, key_list-laws, calm, tables, world, request}

abbrev claimed_world : World (List String)
claimed_world = record world {
  redis = "vault:idempotency:00000000-0000-0000-0000-000000000001" ∷ [];
}

claimed_world_key :
    key_list.exists (idempotency_key_of calm five_places request) claimed_world.redis ≡ true
unfolding idempotency_key_of
claimed_world_key = refl

differ : request.from_account_id ≢ request.to_account_id
differ e = omega arith

transfer_funds_twice_example :
    let (result, w) = transfer_funds key_list calm five_places request served.1 in
    (w.session ≡ served.1.session) × IsRefusal key_list calm five_places request result
transfer_funds_twice_example =
    transfer_funds_twice key_list calm five_places request key_list-laws world request_served

abbrev used_key : TransferRequest ℤ
used_key = record request { idempotency_key = 51 }

transfer_funds-has_key_example :
    let (result, w) = transfer_funds key_list calm five_places used_key world in
    (w.session.db ≡ tables) × ((resp : TransferResponse) → result ≢ ok resp)
transfer_funds-has_key_example =
    transfer_funds-has_key key_list calm five_places used_key world refl
