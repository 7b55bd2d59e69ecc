-- ===== src/Server.antt =====
-- cmd/api/main.go: the mux with the routes that `main` and the handlers' Register functions mount,
-- and what the server does with a request. What the package rs/cors answers by itself does not come
-- here; a path is the list of its segments.
pub mod Keeps
pub mod Change
pub mod Invariant
mod Tests
use bank_system.Prelude.{
  ℕ, String, str_eq, Bool, ◌||◌, ◌&&◌, List, [], ◌∷◌, Option, none, some, if◌then◌else◌,
}
use bank_system.Model.{
  User, Account, TransferRequest, TransferResponse, FundRequest, FundResponse, LoginRequest,
  RegisterRequest, BalanceResponse, PaginatedHistory,
}
use bank_system.Config.{Config}
use bank_system.External.{Env, Decimals, Redis}
use bank_system.RateLimit.Sets.{SetServer}
use bank_system.RateLimit.{Formats, Origin, Limited}
use bank_system.Auth.Token.{Jwt}
use bank_system.Auth.Middleware.{background, Request, Response, protect}
use bank_system.Auth.Service.{Bcrypt}
use bank_system.Handler.Funds.{fund_route}
use bank_system.Handler.Accounts.{
  Parsers, Params, handle_get_accounts, handle_get_balance, handle_get_history,
}
use bank_system.Handler.Sessions.{Reply, Greeting, logout_route}
use bank_system.Routes.{transfer_route, login_route, register_route}
use bank_system.Transfer.{World}

pub data Segment : Type 0 where
  literal : String → Segment
  id_wildcard : Segment

pub data Route : Type 0 where
  to_health to_logout to_login to_register to_transfers to_accounts to_balance to_history to_fund :
      Route

pub record Pattern : Type 0 where
  pub method : String
  pub segments : List Segment
  pub route : Route

abbrev under_api : List Segment → List Segment
under_api l = literal "api" ∷ literal "v1" ∷ l

abbrev on_account : String → List Segment
on_account name = literal "accounts" ∷ id_wildcard ∷ literal name ∷ []

abbrev pattern : String → List Segment → Route → Pattern
pattern method l route = record { method = method; segments = under_api l; route = route }

-- The patterns, in the order in which they are mounted.
abbrev pub patterns : List Pattern
patterns =
    pattern "GET" (literal "health" ∷ []) to_health
    ∷ pattern "POST" (literal "auth" ∷ literal "logout" ∷ []) to_logout
    ∷ pattern "POST" (literal "auth" ∷ literal "login" ∷ []) to_login
    ∷ pattern "POST" (literal "auth" ∷ literal "register" ∷ []) to_register
    ∷ pattern "POST" (literal "transfers" ∷ []) to_transfers
    ∷ pattern "GET" (literal "accounts" ∷ []) to_accounts
    ∷ pattern "GET" (on_account "balance") to_balance
    ∷ pattern "GET" (on_account "history") to_history
    ∷ pattern "POST" (literal "transactions" ∷ literal "system" ∷ literal "fund" ∷ []) to_fund
    ∷ []

-- A pattern for GET serves HEAD too.
abbrev method_fits : String → String → Bool
method_fits expected method =
    str_eq expected method || (str_eq expected "GET" && str_eq method "HEAD")

-- The text that the wildcard stands for, empty where there is none.
unfoldable pub match_path : List Segment → List String → Option String
match_path [] [] = some ""
match_path (literal s ∷ l) (x ∷ path) = if str_eq s x then match_path l path else none
match_path (id_wildcard ∷ l) (x ∷ path) = elim (match_path l path) [ none ↦ none | some _ ↦ some x ]
match_path _ _ = none

unfoldable pub find_route : List Pattern → String → List String → Option (Route × String)
unfolding match_path
find_route [] method path = none
find_route (p ∷ ps) method path =
    let rest = find_route ps method path in
    if method_fits p.method method
    then elim (match_path p.segments path) [ some id ↦ some (p.route, id) | none ↦ rest ]
    else rest

pub record HttpRequest : Type 0 where
  pub method : String
  pub path : List String
  pub page : String
  pub per_page : String
  pub origin : Origin
  pub cookie : Option String
  pub body : String

-- What `json.Decoder` makes of a body.
pub record Json (Amount : Type 0) : Type 0 where
  pub to_transfer : String → Option (TransferRequest Amount)
  pub to_fund : String → Option (FundRequest Amount)
  pub to_login : String → Option LoginRequest
  pub to_register : String → Option RegisterRequest

-- What the program uses and does not implement, and its settings.
pub record Outside : Type 1 where
  pub decimals : Decimals
  pub string_fixed_4 : decimals.Decimal → String
  pub json : Json decimals.Decimal
  pub redis : Redis
  pub sets : SetServer
  pub formats : Formats
  pub env : Env
  pub jwt : Jwt
  pub bcrypt : Bcrypt
  pub parsers : Parsers
  pub config : Config

-- What the server keeps: the limiter's sorted sets, the tables and the services' keys.
pub record ServerState (o : Outside) : Type 0 where
  pub limits : o.sets.State
  pub world : World o.redis.State

-- The answer of each route; 404 or 405 where there is none.
pub data Answer (Amount : Type 0) : Type 0 where
  healthy : Answer Amount
  logged_out : Option (Reply String) → Answer Amount
  greeted : Limited (Reply Greeting) → Answer Amount
  transferred : Limited (Response TransferResponse) → Answer Amount
  listed : Response (List Account × ℕ) → Answer Amount
  balanced : Response BalanceResponse → Answer Amount
  paged : Response (PaginatedHistory Amount) → Answer Amount
  funded : Response (FundResponse Amount) → Answer Amount
  unrouted : Answer Amount

module _ (o : Outside) where
  abbrev pub Served : Type 0
  Served = Answer o.decimals.Decimal × ServerState o

  -- The request as the handlers see it.
  abbrev pub with_body : {B : Type 0} → HttpRequest → (String → Option B) → Request B
  with_body http decode = record { cookie = http.cookie; body = decode http.body }

  abbrev pub bare_request : HttpRequest → Request (Unit {0})
  bare_request http = with_body http (λ text. none)

  abbrev pub params_of : HttpRequest → String → Params
  params_of http id = record { id = id; page = http.page; per_page = http.per_page }

  abbrev on_world :
      {A : Type 0}
      → (A → Answer o.decimals.Decimal)
      → ServerState o
      → A × World o.redis.State
      → Served
  on_world answer s (a, w) = (answer a, record s { world = w })

  abbrev limited :
      {A : Type 0}
      → (Limited A → Answer o.decimals.Decimal)
      → (Limited A × World o.redis.State) × o.sets.State
      → Served
  limited answer ((a, w), limits) = (answer a, record { limits = limits; world = w })

  unfoldable pub serve_route : Route → String → HttpRequest → ServerState o → Served
  serve_route to_health id http s = (healthy, s)
  serve_route to_logout id http s =
      on_world logged_out s (logout_route o.redis o.env (bare_request http) s.world)
  serve_route to_login id http s = limited greeted (
      login_route o.sets o.formats o.redis o.env o.jwt o.config http.origin o.bcrypt
        (with_body http o.json.to_login) s.limits s.world)
  serve_route to_register id http s = limited greeted (
      register_route o.sets o.formats o.redis o.env o.jwt o.config http.origin o.bcrypt
        (with_body http o.json.to_register) s.limits s.world)
  serve_route to_transfers id http s = limited transferred (
      transfer_route o.sets o.formats o.redis o.env o.jwt o.config http.origin o.decimals
        (with_body http o.json.to_transfer) s.limits s.world)
  serve_route to_accounts id http s = on_world listed s (
      protect o.redis o.env o.jwt o.config.jwt_secret (handle_get_accounts o.parsers o.env)
        background (bare_request http) s.world)
  serve_route to_balance id http s = on_world balanced s (
      protect o.redis o.env o.jwt o.config.jwt_secret
        (handle_get_balance o.parsers o.env o.decimals o.string_fixed_4 (params_of http id))
        background (bare_request http) s.world)
  serve_route to_history id http s = on_world paged s (
      protect o.redis o.env o.jwt o.config.jwt_secret
        (handle_get_history o.parsers o.env o.decimals (params_of http id)) background
        (bare_request http) s.world)
  serve_route to_fund id http s = on_world funded s (
      fund_route o.redis o.env o.decimals o.jwt o.config.jwt_secret background
        (with_body http o.json.to_fund) s.world)

  unfoldable pub serve : HttpRequest → ServerState o → Served
  unfolding find_route serve_route
  serve http s = elim (find_route patterns http.method http.path) [
    | none ↦ (unrouted, s)
    | some (route, id) ↦ serve_route route id http s
  ]

  unfoldable pub serve_all : List HttpRequest → ServerState o → ServerState o
  serve_all [] s = s
  serve_all (http ∷ rest) s = serve_all rest (serve http s).1
