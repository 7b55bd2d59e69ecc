-- ===== src/Routes/Tests.antt =====
-- The theorem on the route of transfers at a concrete input.
use bank_system.Prelude.{◌≡◌, String, str_eq, if◌then◌else◌, refl, ◌⊎◌, [], some}
use bank_system.Prelude.Int.{ℤ, pos}
use bank_system.Config.{Config, load}
use bank_system.External.{ok}
use bank_system.Model.{TransferRequest}
use bank_system.RateLimit.Sets.{Sets}
use bank_system.RateLimit.{Origin}
use bank_system.Auth.Middleware.{Request}
use bank_system.Routes.{transfer_route}
use bank_system.Routes.Transfers.{IsCarriedOut, IsNotCarriedOut, transfer_route_sound}
use bank_system.Fixtures.{five_places, key_list, calm, world, request, jwt_of, asha}
use bank_system.Fixtures.Limiter.{steady, exact}

-- The settings of an environment that names the database and a secret.
abbrev environ : String → String
environ key =
    if str_eq key "DATABASE_URL"
    then "postgres://bank"
    else if str_eq key "JWT_SECRET"
    then "secret"
    else ""

abbrev settings : Config
settings = record {
  database_url = "postgres://bank";
  redis_url = "localhost:6379";
  redis_password = "";
  redis_db = pos 0;
  port = "8080";
  env = "development";
  jwt_secret = "secret";
  cors_origin = "http://localhost:3000";
  smtp_host = "smtp.gmail.com";
  smtp_port = "587";
  smtp_username = "";
  smtp_password = "";
  smtp_from = "noreply@thevault.dev";
}

loaded : load (λ text. pos 0) environ ≡ ok settings
unfolding load
loaded = refl

abbrev peer : Origin
peer = record { x_forwarded_for = ""; x_real_ip = ""; remote_addr = "10.0.0.7:52100" }

abbrev pay : Request (TransferRequest ℤ)
pay = record { cookie = some "token"; body = some request }

abbrev no_sets : Sets
no_sets k = []

transfer_route_sound_example :
    let p =
      (transfer_route steady exact key_list calm
        (jwt_of asha)
        settings
        peer
        five_places
        pay
        no_sets
        world).0 in
    IsCarriedOut key_list calm (jwt_of asha) settings five_places request pay world p
    ⊎ IsNotCarriedOut key_list calm (jwt_of asha) settings five_places request pay world p
transfer_route_sound_example =
    transfer_route_sound key_list calm (jwt_of asha) settings five_places request pay world steady
      exact peer no_sets refl
