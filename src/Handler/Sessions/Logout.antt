-- ===== src/Handler/Sessions/Logout.antt =====
-- What the logout endpoint does.
use bank_system.Prelude.{
  String, text_length, ◌≡◌, refl, ◌⊎◌, inl, inr, Option, none, some, ◌<◌, arith, Bool-cases, ltb,
}
use bank_system.External.{Env, Redis}
use bank_system.Auth.Middleware.{Request, refuse}
use bank_system.Handler.Sessions.{Reply, plainly, cookie_hint, refuse_logout, logout_route}
use bank_system.Transfer.{World}

-- A refusal of a logout, or the panic on a short cookie.
abbrev pub IsTurnedDown : Option String → Option (Reply String) → Type 0
IsTurnedDown cookie answer =
    ((text : String) × ((answer ≡ some (plainly (refuse 401 text)))
        ⊎ (answer ≡ some (plainly (refuse 400 text)))))
    ⊎ ((value : String) × (cookie ≡ some value) × (text_length value < 8) × (answer ≡ none))

refuse_logout_cases : (cookie : Option String) → IsTurnedDown cookie (refuse_logout cookie)
unfolding refuse_logout
refuse_logout_cases none = inl ("not authenticated", inl refl)
refuse_logout_cases (some value) = elim (Bool-cases (ltb (text_length value) 8)) [
  | inl short ↦ inr (value, refl, ground arith, rw (short, refuse_logout) refl)
  | inr long ↦ inl (cookie_hint value, inr (rw (long, refuse_logout) refl))
]

module _ (r : Redis) (env : Env) {B : Type 0} (req : Request B) (w : World r.State) where
  -- The logout endpoint revokes no token: it changes nothing, and answers every request with 401 or
  -- 400, or panics on a cookie of less than eight bytes.
  pub logout_route-IsTurnedDown :
      ((logout_route r env req w).1 ≡ w) × IsTurnedDown req.cookie (logout_route r env req w).0
  unfolding logout_route
  logout_route-IsTurnedDown = (refl, refuse_logout_cases req.cookie)
