-- ===== src/Handler/Sessions/Outcome.antt =====
-- What a login and a registration answer.
use bank_system.Prelude.{
  ℕ, ◌≤◌, String, Bool, ◌≡◌, refl, ap, ◌⊎◌, inl, inr, some, arith, ◌==◌, length,
}
use bank_system.Errs.{Error, message}
use bank_system.Model.{LoginRequest, RegisterRequest, AuthResponse}
use bank_system.External.{Result, ok, err, Env}
use bank_system.Auth.Token.{Jwt}
use bank_system.Auth.Middleware.{Request, payload, refuse}
use bank_system.Auth.Service.{Bcrypt, bcrypt_cost, token_cookie, login, register}
use bank_system.Auth.Login.{IsLetIn, login_db, login-IsLetIn}
use bank_system.Auth.Enrollment.{IsEnrolled}
use bank_system.Auth.Registration.{register-IsEnrolled}
use bank_system.Handler.Sessions.{
  map_auth_error_to_http, Reply, plainly, Greeting, greet, handle_login, handle_register,
}
use bank_system.Transfer.{World}

map_auth_error_to_http_bounds : (e : Error) → 400 ≤ map_auth_error_to_http e
unfolding map_auth_error_to_http
map_auth_error_to_http_bounds e = ground arith

-- The reply to an error of the service: an error status, and no cookie.
abbrev pub IsDenial : Result AuthResponse → Reply Greeting → Type 0
IsDenial result reply =
    (e : Error) × (result ≡ err e)
    × (400 ≤ map_auth_error_to_http e)
    × (reply ≡ plainly (refuse (map_auth_error_to_http e) (message e)))

abbrev pub IsWelcome : Bool → ℕ → String → AuthResponse → Reply Greeting → Type 0
IsWelcome secure status text resp reply = reply ≡ record {
  response = record { status = status; body = payload (text, resp.user) };
  set_cookie = some (token_cookie resp.token secure);
}

greet_cases :
    (secure : Bool) (status : ℕ) (text : String) (result : Result AuthResponse)
    → ((resp : AuthResponse) × (result ≡ ok resp)
        × IsWelcome secure status text resp (greet secure status text result))
      ⊎ IsDenial result (greet secure status text result)
unfolding greet
greet_cases secure status text (ok resp) = inl (resp, refl, refl)
greet_cases secure status text (err e) = inr (e, refl, map_auth_error_to_http_bounds e, refl)

module _ (env : Env) (jwt : Jwt) (secret : String) (bcrypt : Bcrypt) (secure : Bool) {R : Type 0}
    (w : World R) where
  -- A login changes no table. If `Login` succeeds, which it does only for a user who is let in, the
  -- answer is 200, the user and the cookie of the token; if it returns an error, the answer has the
  -- error's status and sets no cookie.
  pub handle_login_sound :
      (body : LoginRequest) (req : Request LoginRequest)
      → req.body ≡ some body
      → let p = handle_login env jwt secret bcrypt secure req w in
        (p.1.session.db ≡ w.session.db)
        × (((resp : AuthResponse) × ((login env jwt secret bcrypt body w.session).0 ≡ ok resp)
              × IsLetIn env jwt secret bcrypt body w.session.db p.1.session.calls resp
              × IsWelcome secure 200 "login successful" resp p.0)
            ⊎ IsDenial (login env jwt secret bcrypt body w.session).0 p.0)
  unfolding handle_login
  handle_login_sound body req given =
      let p = login env jwt secret bcrypt body w.session in
      rw (given, handle_login)
        (
          login_db env jwt secret bcrypt body w.session,
          elim (greet_cases secure 200 "login successful" p.0) [
            | inl (resp, e, told) ↦ inl (
              resp,
              e,
              login-IsLetIn env jwt secret bcrypt body w.session (ap (λ x. (x, p.1)) e),
              told,
            )
            | inr denied ↦ inr denied
          ],
        )

  -- If `Register` succeeds, which it does only when it has added the user and an account, the answer
  -- is 201, the user and the cookie of the token; if it returns an error, the answer has the error's
  -- status and sets no cookie.
  pub handle_register_sound :
      (body : RegisterRequest) (req : Request RegisterRequest)
      → req.body ≡ some body
      → let p = handle_register env jwt secret bcrypt secure req w in
        ((resp : AuthResponse) × ((register env jwt secret bcrypt body w.session).0 ≡ ok resp)
          × (hash : String) × (salt : ℕ) × (bcrypt.generate salt body.password bcrypt_cost
              ≡ ok hash)
          × IsEnrolled env jwt secret bcrypt body hash
              (length w.session.db.users == 0)
              w.session.db
              p.1.session.db
              resp
          × IsWelcome secure 201 "registration successful" resp p.0)
        ⊎ IsDenial (register env jwt secret bcrypt body w.session).0 p.0
  unfolding handle_register
  handle_register_sound body req given =
      let p = register env jwt secret bcrypt body w.session in
      rw (given, handle_register)
        (elim (greet_cases secure 201 "registration successful" p.0) [
          | inl (resp, e, told) ↦
              let (_, (hash, salt, hashed, enrolled)) =
                register-IsEnrolled env jwt secret bcrypt body w.session (ap (λ x. (x, p.1)) e) in
              inl (resp, e, hash, salt, hashed, enrolled, told)
          | inr denied ↦ inr denied
        ])
