-- ===== src/Handler/Sessions/Tests.antt =====
-- The theorems on registration, login and logout at concrete inputs.
use bank_system.Prelude.{ℕ, String, ◌≡◌, refl, ◌⊎◌, length, ◌==◌, true, some, none}
use bank_system.Model.{AuthResponse, LoginRequest, RegisterRequest}
use bank_system.External.{ok}
use bank_system.Auth.Middleware.{Request}
use bank_system.Auth.Service.{bcrypt_cost, login, register}
use bank_system.Auth.Login.{IsLetIn}
use bank_system.Auth.Enrollment.{IsEnrolled}
use bank_system.Handler.Sessions.{handle_login, handle_register, logout_route}
use bank_system.Handler.Sessions.Outcome.{
  IsDenial, IsWelcome, handle_login_sound, handle_register_sound,
}
use bank_system.Handler.Sessions.Logout.{IsTurnedDown, logout_route-IsTurnedDown}
use bank_system.Fixtures.{key_list, calm, tables, world, jwt_of, asha, with_token}
use bank_system.Fixtures.Sessions.{bare, newcomer, asha_creds}

abbrev log_in : Request LoginRequest
log_in = record { cookie = none; body = some asha_creds }

abbrev sign_up : Request RegisterRequest
sign_up = record { cookie = none; body = some newcomer }

handle_login_sound_example :
    let p = handle_login calm (jwt_of asha) "secret" bare true log_in world in
    (p.1.session.db ≡ tables)
    × (((resp : AuthResponse) × ((login calm (jwt_of asha) "secret" bare asha_creds world.session).0
            ≡ ok resp)
          × IsLetIn calm (jwt_of asha) "secret" bare asha_creds tables p.1.session.calls resp
          × IsWelcome true 200 "login successful" resp p.0)
        ⊎ IsDenial (login calm (jwt_of asha) "secret" bare asha_creds world.session).0 p.0)
handle_login_sound_example =
    handle_login_sound calm (jwt_of asha) "secret" bare true world asha_creds log_in refl

handle_register_sound_example :
    let p = handle_register calm (jwt_of asha) "secret" bare true sign_up world in
    ((resp : AuthResponse) × ((register calm (jwt_of asha) "secret" bare newcomer world.session).0
        ≡ ok resp)
      × (hash : String) × (salt : ℕ) × (bare.generate salt newcomer.password bcrypt_cost ≡ ok hash)
      × IsEnrolled calm
          (jwt_of asha)
          "secret"
          bare
          newcomer
          hash
          (length tables.users == 0)
          tables
          p.1.session.db
          resp
      × IsWelcome true 201 "registration successful" resp p.0)
    ⊎ IsDenial (register calm (jwt_of asha) "secret" bare newcomer world.session).0 p.0
handle_register_sound_example =
    handle_register_sound calm (jwt_of asha) "secret" bare true world newcomer sign_up refl

logout_route-IsTurnedDown_example :
    ((logout_route key_list calm with_token world).1 ≡ world)
    × IsTurnedDown (some "token") (logout_route key_list calm with_token world).0
logout_route-IsTurnedDown_example = logout_route-IsTurnedDown key_list calm with_token world
