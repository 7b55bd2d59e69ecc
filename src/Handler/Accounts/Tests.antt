-- ===== src/Handler/Accounts/Tests.antt =====
-- The theorems on the endpoints on accounts at concrete inputs.
use bank_system.Prelude.{ℕ, String, ◌≡◌, ◌⊎◌, List, [], ◌∷◌, some}
use bank_system.Prelude.Int.{ℤ, pos}
use bank_system.Auth.Middleware.{Context}
use bank_system.Handler.Accounts.{Params, Parsers, handle_get_balance}
use bank_system.Handler.Accounts.Balances.{IsTold, IsRefusedWith, handle_get_balance_sound}
use bank_system.Fixtures.{five_places, calm, tables, world, with_token}

-- Every id is that of account 2, and every number is 2.
abbrev twos : Parsers
twos = record { parse_uuid = λ t. some 2; atoi = λ t. some (pos 2) }

abbrev asha_context : Context
asha_context = record { user_id = some 2; username = some "asha"; jti = some "7" }

abbrev second_page : Params
second_page = record { id = "00000000-0000-0000-0000-000000000002"; page = "2"; per_page = "" }

abbrev shown : ℤ → String
shown v = "100.0000"

handle_get_balance_sound_example :
    let p =
      handle_get_balance twos calm five_places shown second_page asha_context with_token world in
    (p.1.session.db ≡ tables)
    × (IsTold twos calm five_places shown second_page asha_context with_token world p.0
        ⊎ IsRefusedWith twos calm five_places shown second_page asha_context with_token world p.0)
handle_get_balance_sound_example =
    handle_get_balance_sound twos calm five_places shown second_page asha_context with_token world

abbrev three : List ℕ
three = 7 ∷ 8 ∷ 9 ∷ []
