-- ===== src/Server/Keeps.antt =====
-- The parts of the server that change no table.
use bank_system.Prelude.{
  ◌≡◌, refl, sym, ap, ◌∙◌, inl, inr, String, Bool, ◌==◌, Option-cases, Bool-cases,
}
use mathlib.Core.Path.{subst}
use bank_system.Model.{Time, nil_uuid, LoginRequest}
use bank_system.External.{Env, Redis}
use bank_system.Auth.Token.{Jwt}
use bank_system.Auth.Middleware.{Context, background, Request, Handler, protect, user_id_from_ctx}
use bank_system.Auth.Guards.{protect_sound}
use bank_system.Auth.Service.{Bcrypt}
use bank_system.Auth.Login.{login_db}
use bank_system.Handler.Accounts.{Parsers, handle_get_accounts}
use bank_system.Handler.Accounts.Owned.{get_accounts_by_user_id_ok}
use bank_system.Handler.Sessions.{handle_login}
use bank_system.RateLimit.Sets.{SetServer}
use bank_system.RateLimit.{Formats, Origin, RateLimiterConfig, limit}
use bank_system.Routes.Transfers.{limit_cases}
use bank_system.Transfer.{World}

module _ {W A : Type 0} (P : W → Type 0) (z : SetServer) (f : Formats) (cfg : RateLimiterConfig)
    (next : W → A × W) where
  -- What holds before, and after the handler has run, holds after the limiter.
  pub limit_keeps :
      (route : String) (origin : Origin) (now : Time) (l : z.State) (w : W)
      → P w
      → P (next w).1
      → P (limit z f cfg next route origin now l w).0.1
  limit_keeps route origin now l w before after =
      elim (limit_cases z f cfg next route origin now l w) [
        | inl (_, _, refused) ↦ subst (λ p. P p.1) (sym refused) before
        | inr (_, ran) ↦ subst (λ p. P p.1) (sym ran) after
      ]

module _ (r : Redis) (env : Env) (jwt : Jwt) (secret : String) {B A : Type 0}
    (next : Handler r.State B A) (req : Request B) (w : World r.State) where
  -- A handler that changes no table changes none behind `Protect`.
  pub protect_db :
      ((ctx : Context) (w : World r.State) → (next ctx req w).1.session.db ≡ w.session.db)
      → (protect r env jwt secret next background req w).1.session.db ≡ w.session.db
  protect_db kept = elim (protect_sound r env jwt secret next background req w) [
    | inl refused ↦ refused.db
    | inr i ↦ ap (λ p. p.1.session.db) i.ran ∙ kept _ _ ∙ i.same_db
  ]

pub handle_get_accounts_db :
    (ps : Parsers) (env : Env) {R B : Type 0} (ctx : Context) (req : Request B) (w : World R)
    → (handle_get_accounts ps env ctx req w).1.session.db ≡ w.session.db
unfolding handle_get_accounts
handle_get_accounts_db ps env ctx req w = elim (Bool-cases (user_id_from_ctx ctx == nil_uuid)) [
  | inl nobody ↦ rw (nobody, handle_get_accounts) refl
  | inr somebody ↦
      rw (somebody, handle_get_accounts)
        (get_accounts_by_user_id_ok env (user_id_from_ctx ctx) w.session).0
]

pub handle_login_db :
    (env : Env) (jwt : Jwt) (secret : String) (bcrypt : Bcrypt) (secure : Bool) {R : Type 0}
    (req : Request LoginRequest) (w : World R)
    → (handle_login env jwt secret bcrypt secure req w).1.session.db ≡ w.session.db
unfolding handle_login
handle_login_db env jwt secret bcrypt secure req w = elim (Option-cases req.body) [
  | inl e ↦ rw (e, handle_login) refl
  | inr (body, e) ↦ rw (e, handle_login) (login_db env jwt secret bcrypt body w.session)
]
