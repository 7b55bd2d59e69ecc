-- ===== src/Server/Change.antt =====
-- What a request may change in the tables.
use bank_system.Prelude.{
  ℕ, ◌≡◌, refl, sym, ap, ◌⊎◌, inl, inr, String, none, some, false, length, ◌==◌, Option-cases,
}
use mathlib.Core.Path.{subst}
use bank_system.Model.{Uuid, RegisterRequest, TransferRequest}
use bank_system.External.{ok}
use bank_system.Store.Db.{Db}
use bank_system.Auth.Token.{Claims, validate_token, is_blacklisted}
use bank_system.Auth.Middleware.{Context, background, protect}
use bank_system.Auth.Guards.{protect_sound, IsAdmitted}
use bank_system.Auth.Service.{bcrypt_cost}
use bank_system.Auth.Enrollment.{HasLeft}
use bank_system.Auth.Residue.{register-HasLeft}
use bank_system.Handler.Accounts.Balances.{handle_get_balance_sound}
use bank_system.Handler.Accounts.Pages.{handle_get_history_db}
use bank_system.Handler.Funds.Gate.{fund_route_unauthorized}
use bank_system.Handler.Sessions.{handle_login, handle_register}
use bank_system.Handler.Sessions.Logout.{logout_route-IsTurnedDown}
use bank_system.Handler.Transfers.{handle_transfer}
use bank_system.Routes.{five_a_minute, transfer_route, login_route, register_route, is_production}
use bank_system.Transfer.Effect.{IsPosted}
use bank_system.Transfer.Outcome.{transfer_funds_elim}
use bank_system.Server.Keeps.{limit_keeps, protect_db, handle_get_accounts_db, handle_login_db}
use bank_system.Server.{
  Route, to_health, to_logout, to_login, to_register, to_transfers, to_accounts, to_balance,
  to_history, to_fund, patterns, find_route, HttpRequest, Outside, ServerState, with_body,
  bare_request, params_of, serve_route, serve,
}

module _ (o : Outside) (http : HttpRequest) (s : ServerState o) where
  -- A registration: what it may have left.
  pub record IsSignup (after : Db) : Type 0 where
    pub body : RegisterRequest
    pub hash : String
    pub salt : ℕ
    pub given : o.json.to_register http.body ≡ some body
    pub hashed : o.bcrypt.generate salt body.password bcrypt_cost ≡ ok hash
    pub left : HasLeft body hash (length s.world.session.db.users == 0) s.world.session.db after

  -- A transfer that was asked for with a valid token.
  pub record IsPayment (after : Db) : Type 0 where
    pub body : TransferRequest o.decimals.Decimal
    pub token : String
    pub claims : Claims
    pub txn_id : Uuid
    pub given : o.json.to_transfer http.body ≡ some body
    pub cookie : http.cookie ≡ some token
    pub genuine :
        validate_token o.jwt o.config.jwt_secret (o.env.now s.world.session.calls) token ≡ ok claims
    pub not_revoked : is_blacklisted o.redis claims.id s.world.redis ≡ ok false
    pub posted : IsPosted o.decimals body txn_id s.world.session.db after

  -- By its route, what a request may do to the tables.
  abbrev pub IsChange : Route → Db → Type 0
  IsChange to_register after = (after ≡ s.world.session.db) ⊎ IsSignup after
  IsChange to_transfers after = (after ≡ s.world.session.db) ⊎ IsPayment after
  IsChange _ after = after ≡ s.world.session.db

module _ (o : Outside) (http : HttpRequest) (s : ServerState o) where
  abbrev db : Db
  db = s.world.session.db

  handle_register-IsChange :
      IsChange o http s to_register
        (handle_register o.env o.jwt o.config.jwt_secret o.bcrypt
          (is_production o.config)
          (with_body o http o.json.to_register)
          s.world).1.session.db
  unfolding handle_register
  handle_register-IsChange = elim (Option-cases (o.json.to_register http.body)) [
    | inl e ↦ rw (e, handle_register) (inl refl)
    | inr (body, e) ↦
        rw (e, handle_register)
          (elim (register-HasLeft o.env o.jwt o.config.jwt_secret o.bcrypt body s.world.session) [
            | inl same ↦ inl same
            | inr (hash, salt, hashed, left) ↦ inr (record {
              body = body;
              hash = hash;
              salt = salt;
              given = e;
              hashed = hashed;
              left = left;
            })
          ])
  ]

  module _
      (i : IsAdmitted o.redis o.env o.jwt o.config.jwt_secret
        (handle_transfer o.redis o.env o.decimals)
        background
        (with_body o http o.json.to_transfer)
        s.world
        (protect o.redis o.env o.jwt o.config.jwt_secret
          (handle_transfer o.redis o.env o.decimals)
          background
          (with_body o http o.json.to_transfer)
          s.world)) where
    payment :
        (body : TransferRequest o.decimals.Decimal) (txn_id : Uuid) (after : Db)
        → o.json.to_transfer http.body ≡ some body
        → IsPosted o.decimals body txn_id i.session.db after
        → IsPayment o http s after
    payment body txn_id after given posted = record {
      body = body;
      token = i.token;
      claims = i.claims;
      txn_id = txn_id;
      given = given;
      cookie = i.cookie;
      genuine = i.genuine;
      not_revoked = i.not_revoked;
      posted = subst (λ before. IsPosted o.decimals body txn_id before after) i.same_db posted;
    }

    handle_transfer-IsChange :
        (ctx : Context)
        → IsChange o http s to_transfers
            (handle_transfer o.redis o.env o.decimals ctx
              (with_body o http o.json.to_transfer)
              (record s.world { session = i.session })).1.session.db
    unfolding handle_transfer
    handle_transfer-IsChange ctx = elim (Option-cases (o.json.to_transfer http.body)) [
      | inl e ↦ rw (e, handle_transfer) (inl i.same_db)
      | inr (body, e) ↦
          rw (e, handle_transfer)
            (transfer_funds_elim o.redis o.env o.decimals body (IsChange o http s to_transfers)
              (record s.world { session = i.session }) (inl i.same_db)
              (λ txn_id after posted. inr (payment body txn_id after e posted)))
    ]

  protected-IsChange :
      IsChange o http s to_transfers
        (protect o.redis o.env o.jwt o.config.jwt_secret
          (handle_transfer o.redis o.env o.decimals)
          background
          (with_body o http o.json.to_transfer)
          s.world).1.session.db
  protected-IsChange =
      elim (protect_sound o.redis o.env o.jwt o.config.jwt_secret
        (handle_transfer o.redis o.env o.decimals) background (with_body o http o.json.to_transfer)
        s.world) [
          | inl refused ↦ inl refused.db
          | inr i ↦
              subst (λ p. IsChange o http s to_transfers p.1.session.db) (sym i.ran)
                (handle_transfer-IsChange i _)
        ]

  serve_route-IsChange :
      (route : Route) (id : String)
      → IsChange o http s route (serve_route o route id http s).1.world.session.db
  unfolding serve_route transfer_route login_route register_route
  serve_route-IsChange to_health id = refl
  serve_route-IsChange to_logout id =
      ap (λ w. w.session.db)
        (logout_route-IsTurnedDown o.redis o.env (bare_request o http) s.world).0
  serve_route-IsChange to_login id =
      limit_keeps (λ w. w.session.db ≡ db) o.sets o.formats five_a_minute
        (handle_login o.env o.jwt o.config.jwt_secret o.bcrypt (is_production o.config)
          (with_body o http o.json.to_login))
        "auth:login" http.origin _ s.limits s.world refl
        (handle_login_db o.env o.jwt o.config.jwt_secret o.bcrypt (is_production o.config) _
          s.world)
  serve_route-IsChange to_register id =
      limit_keeps (λ w. IsChange o http s to_register w.session.db) o.sets o.formats five_a_minute
        (handle_register o.env o.jwt o.config.jwt_secret o.bcrypt (is_production o.config)
          (with_body o http o.json.to_register))
        "auth:register" http.origin _ s.limits s.world (inl refl) handle_register-IsChange
  serve_route-IsChange to_transfers id =
      limit_keeps (λ w. IsChange o http s to_transfers w.session.db) o.sets o.formats five_a_minute
        (protect o.redis o.env o.jwt o.config.jwt_secret (handle_transfer o.redis o.env o.decimals)
          background (with_body o http o.json.to_transfer))
        "transfers" http.origin _ s.limits s.world (inl refl) protected-IsChange
  serve_route-IsChange to_accounts id =
      protect_db o.redis o.env o.jwt o.config.jwt_secret _ (bare_request o http) s.world
        (λ ctx w. handle_get_accounts_db o.parsers o.env ctx (bare_request o http) w)
  serve_route-IsChange to_balance id =
      protect_db o.redis o.env o.jwt o.config.jwt_secret _ (bare_request o http) s.world (λ ctx w.
        (handle_get_balance_sound o.parsers o.env o.decimals o.string_fixed_4 (params_of o http id)
          ctx (bare_request o http) w).0)
  serve_route-IsChange to_history id =
      protect_db o.redis o.env o.jwt o.config.jwt_secret _ (bare_request o http) s.world (λ ctx w.
        handle_get_history_db o.parsers o.env o.decimals (params_of o http id) ctx
          (bare_request o http) w)
  serve_route-IsChange to_fund id =
      ap (λ p. p.1.session.db)
        (fund_route_unauthorized o.redis o.env o.decimals o.jwt o.config.jwt_secret
          (with_body o http o.json.to_fund) s.world)

  -- What a request to the server may do to the tables, by the route that it takes: a registration
  -- may add a user, or a user with an account; a request to the transfers with a valid token that
  -- is not revoked may post the transfer of its body; no other request changes any table.
  pub serve-IsChange :
      ((route : Route) × (id : String) × (find_route patterns http.method http.path
          ≡ some (route, id))
        × IsChange o http s route (serve o http s).1.world.session.db)
      ⊎ ((find_route patterns http.method http.path ≡ none)
          × ((serve o http s).1.world.session.db ≡ db))
  unfolding serve
  serve-IsChange = elim (Option-cases (find_route patterns http.method http.path)) [
    | inl e ↦ inr (e, rw (e, serve) refl)
    | inr ((route, id), e) ↦ inl (route, id, e, rw (e, serve) (serve_route-IsChange route id))
  ]
