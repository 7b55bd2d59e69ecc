-- ===== src/Server/Tests.antt =====
-- The theorems on the server at concrete requests.
use bank_system.Prelude.{String, str_eq, ◌≡◌, refl, ◌⊎◌, none, some, List, [], ◌∷◌, if◌then◌else◌}
use bank_system.Prelude.Int.{pos}
use bank_system.Server.{
  Route, to_balance, patterns, find_route, HttpRequest, Outside, ServerState, serve, serve_all,
}
use bank_system.Server.Change.{IsChange, serve-IsChange}
use bank_system.Server.Invariant.{IsSound, money, serve_all-IsSound}
use bank_system.Fixtures.{
  five_places, five_places-laws, key_list, calm, tables, tables-IsConsistent, tables-IsSolvent,
  world, request, jwt_of, asha,
}
use bank_system.Fixtures.Sessions.{bare, tables-IsRoster, newcomer, asha_creds}
use bank_system.Fixtures.Limiter.{steady, exact}

abbrev site : Outside
site = record {
  decimals = five_places;
  string_fixed_4 = λ v. "0.0000";
  json = record {
    to_transfer = λ text. if str_eq text "pay" then some request else none;
    to_fund = λ text. none;
    to_login = λ text. some asha_creds;
    to_register = λ text. some newcomer;
  };
  redis = key_list;
  sets = steady;
  formats = exact;
  env = calm;
  jwt = jwt_of asha;
  bcrypt = bare;
  parsers = record { parse_uuid = λ text. some 2; atoi = λ text. none };
  config = record {
    database_url = "postgres://bank";
    redis_url = "localhost:6379";
    redis_password = "";
    redis_db = pos 0;
    port = "8080";
    env = "production";
    jwt_secret = "secret";
    cors_origin = "https://bank.in";
    smtp_host = "";
    smtp_port = "";
    smtp_username = "";
    smtp_password = "";
    smtp_from = "";
  };
}

abbrev opened : ServerState site
opened = record { limits = λ k. []; world = world }

abbrev ask : String → List String → String → HttpRequest
ask method path body = record {
  method = method;
  path = path;
  page = "";
  per_page = "";
  origin = record { x_forwarded_for = ""; x_real_ip = ""; remote_addr = "10.0.0.7:52100" };
  cookie = some "token";
  body = body;
}

abbrev pay : HttpRequest
pay = ask "POST" ("api" ∷ "v1" ∷ "transfers" ∷ []) "pay"

abbrev sign_up : HttpRequest
sign_up = ask "POST" ("api" ∷ "v1" ∷ "auth" ∷ "register" ∷ []) ""

abbrev look : HttpRequest
look = ask "HEAD" ("api" ∷ "v1" ∷ "accounts" ∷ "2" ∷ "balance" ∷ []) ""

look_route : find_route patterns look.method look.path ≡ some (to_balance, "2")
unfolding find_route
look_route = refl

pay_route : find_route patterns "GET" pay.path ≡ none
unfolding find_route
pay_route = refl

serve-IsChange_example :
    ((route : Route) × (id : String) × (find_route patterns pay.method pay.path ≡ some (route, id))
      × IsChange site pay opened route (serve site pay opened).1.world.session.db)
    ⊎ ((find_route patterns pay.method pay.path ≡ none)
        × ((serve site pay opened).1.world.session.db ≡ tables))
serve-IsChange_example = serve-IsChange site pay opened

serve_all-IsSound_example :
    let s = serve_all site (sign_up ∷ pay ∷ look ∷ pay ∷ []) opened in
    IsSound s.world.session.db × (money site s ≡ money site opened)
serve_all-IsSound_example =
    serve_all-IsSound site five_places-laws (sign_up ∷ pay ∷ look ∷ pay ∷ []) opened (record {
      consistent = tables-IsConsistent;
      solvent = tables-IsSolvent;
      roster = tables-IsRoster;
    })
