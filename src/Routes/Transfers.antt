-- ===== src/Routes/Transfers.antt =====
-- What the endpoint of transfers does, from the rate limiter to the tables.
use bank_system.Prelude.{
  ℕ, String, Bool, true, false, ◌≡◌, ◌≢◌, refl, sym, ap, ◌∙◌, ◌⊎◌, inl, inr, Option, none, some,
  arith,
}
use mathlib.Core.Path.{subst}
use bank_system.Errs.{Error}
use bank_system.Model.{Time, TransferRequest, TransferResponse}
use bank_system.Config.{Config}
use bank_system.External.{Result, ok, err, Env, Decimals, Redis}
use bank_system.RateLimit.Sets.{SetServer}
use bank_system.RateLimit.{
  RateLimiterConfig, Formats, Origin, RateHeaders, Limited, too_many, let_through, conclude, limit,
}
use bank_system.Auth.Token.{Claims, Jwt, validate_token, is_blacklisted}
use bank_system.Auth.Middleware.{Context, background, Request, Response, payload, protect}
use bank_system.Auth.Guards.{IsAdmitted, protect_sound}
use bank_system.Handler.Transfers.{handle_transfer}
use bank_system.Handler.Transfers.Outcome.{handle_transfer_sound}
use bank_system.Transfer.{World}
use bank_system.Transfer.Effect.{IsPosted}
use bank_system.Transfer.Outcome.{IsLost}
use bank_system.Routes.{five_a_minute, transfer_route}

module _ (z : SetServer) (f : Formats) (cfg : RateLimiterConfig) {W A : Type 0}
    (next : W → A × W) where
  -- The limiter has turned the request away, or the handler behind has run on it, once.
  abbrev pub IsPassed : W → Limited A × W → Type 0
  IsPassed w p =
      ((headers : RateHeaders) × (wait : ℕ) × (p ≡ (too_many headers wait, w)))
      ⊎ ((headers : Option RateHeaders) × (p ≡ (let_through headers (next w).0, (next w).1)))

  conclude_cases :
      (now : Time) (r : Result (Bool × ℕ)) (w : W) → IsPassed w (conclude z f cfg next now r w)
  unfolding conclude
  conclude_cases now (err e) w = inr (none, refl)
  conclude_cases now (ok (true, remaining)) w = inr (some _, refl)
  conclude_cases now (ok (false, remaining)) w = inl (_, _, refl)

  pub limit_cases :
      (route : String) (origin : Origin) (now : Time) (s : z.State) (w : W)
      → IsPassed w (limit z f cfg next route origin now s w).0
  unfolding limit
  limit_cases route origin now s w = conclude_cases now _ w

-- An answer that reports no success.
abbrev pub IsFailure : Limited (Response TransferResponse) → Type 0
IsFailure answer =
    ((headers : RateHeaders) × (wait : ℕ) × (answer ≡ too_many headers wait))
    ⊎ ((headers : Option RateHeaders) × (response : Response TransferResponse) × (answer
          ≡ let_through headers response)
        × (response.status ≢ 200))

module _ (r : Redis) (env : Env) (jwt : Jwt) (cfg : Config) (d : Decimals)
    (body : TransferRequest d.Decimal) (req : Request (TransferRequest d.Decimal))
    (w : World r.State) where
  -- A transfer that was carried out for a request with a token that is valid.
  pub record IsCarriedOut (p : Limited (Response TransferResponse) × World r.State) : Type 0 where
    pub headers : Option RateHeaders
    pub resp : TransferResponse
    pub answered : p.0 ≡ let_through headers (record { status = 200; body = payload resp })
    pub token : String
    pub claims : Claims
    pub cookie : req.cookie ≡ some token
    pub genuine : validate_token jwt cfg.jwt_secret (env.now w.session.calls) token ≡ ok claims
    pub not_revoked : is_blacklisted r claims.id w.redis ≡ ok false
    pub posted : IsPosted d body resp.transaction_id w.session.db p.1.session.db

  -- No success is reported: the tables are as they were, or the reply to the COMMIT was lost.
  abbrev pub IsNotCarriedOut : Limited (Response TransferResponse) × World r.State → Type 0
  IsNotCarriedOut p =
      IsFailure p.0
      × ((p.1.session.db ≡ w.session.db)
          ⊎ ((e : Error) × IsLost r env d body e w.session.db p.1.session.db))

  module _ (given : req.body ≡ some body) (headers : Option RateHeaders) where
    abbrev Verdict : Response TransferResponse × World r.State → Type 0
    Verdict p =
        IsCarriedOut (let_through headers p.0, p.1) ⊎ IsNotCarriedOut (let_through headers p.0, p.1)

    handled :
        (i : IsAdmitted r env jwt cfg.jwt_secret
          (handle_transfer r env d)
          background
          req
          w
          (protect r env jwt cfg.jwt_secret (handle_transfer r env d) background req w))
        → Verdict (protect r env jwt cfg.jwt_secret (handle_transfer r env d) background req w)
    handled i =
        let ctx : Context = record {
          user_id = some i.claims.user_id;
          username = some i.claims.username;
          jti = some i.claims.id;
        } in
        let w' : World r.State = record w { session = i.session } in
        let p = handle_transfer r env d ctx req w' in
        subst Verdict (sym i.ran) (elim (handle_transfer_sound r env d ctx body req given w') [
          | inl (resp, answered, posted) ↦ inl (record {
            headers = headers;
            resp = resp;
            answered = ap (let_through headers) answered;
            token = i.token;
            claims = i.claims;
            cookie = i.cookie;
            genuine = i.genuine;
            not_revoked = i.not_revoked;
            posted =
                subst (λ db. IsPosted d body resp.transaction_id db p.1.session.db) i.same_db
                  posted;
          })
          | inr (e, status, failed, left) ↦ inr (
            inr (headers, p.0, refl, λ ok_status. failed (sym status ∙ ok_status)),
            elim left [
              | inl same ↦ inl (same ∙ i.same_db)
              | inr lost ↦
                  inr (e, subst (λ db. IsLost r env d body e db p.1.session.db) i.same_db lost)
            ],
          )
        ])

    protected :
        Verdict (protect r env jwt cfg.jwt_secret (handle_transfer r env d) background req w)
    protected =
        elim (protect_sound r env jwt cfg.jwt_secret (handle_transfer r env d) background req w) [
          | inr admitted ↦ handled admitted
          | inl i ↦ inr (
            inr (
              headers,
              _,
              refl,
              λ ok_status.
                  let status : i.status ≡ 200 = sym (ap (λ a. a.status) i.answered) ∙ ok_status in
                  omega (arith, i.failed),
            ),
            inl i.db,
          )
        ]

  -- A request to the endpoint of transfers, whose body could be decoded, is answered with 200 and the
  -- id of a transfer, and then it carried a valid token that is not revoked, and the transfer was
  -- carried out. Or it is answered with a failure, by the rate limiter, the middleware or the
  -- handler, and the tables are as they were, or the reply to a COMMIT was lost.
  pub transfer_route_sound :
      (z : SetServer) (f : Formats) (origin : Origin) (s : z.State)
      → req.body ≡ some body
      → let p = (transfer_route z f r env jwt cfg origin d req s w).0 in
        IsCarriedOut p ⊎ IsNotCarriedOut p
  unfolding transfer_route
  transfer_route_sound z f origin s given =
      let next = protect r env jwt cfg.jwt_secret (handle_transfer r env d) background req in
      elim (limit_cases z f five_a_minute next "transfers" origin (env.now w.session.calls) s w) [
        | inl (headers, wait, refused) ↦
            inr (inl (headers, wait, ap (λ p. p.0) refused), inl (ap (λ p. p.1.session.db) refused))
        | inr (headers, ran) ↦
            subst (λ p. IsCarriedOut p ⊎ IsNotCarriedOut p) (sym ran) (protected given headers)
      ]
