-- ===== src/Auth/Revocation.antt =====
-- internal/auth/token.go and middleware.go: what a revoked token is still good for, as time passes.
use bank_system.Prelude.{ℕ, String, true, ◌≡◌, ◌<◌, ◌*◌, ◌/◌}
use bank_system.Model.{Time}
use bank_system.External.{Result, ok, Redis}
use bank_system.Auth.Token.{Claims, Jwt, SigningMethod}

-- In nanoseconds. Redis counts lifetimes in milliseconds, and go-redis leaves out what is less.
abbrev pub millisecond : ℕ
millisecond = 1_000_000

-- How a server goes on: `Later t s u`, if the server in the state s can be in the state u after a
-- time t, the program having deleted no key of a token. Then a key that has been set is there until
-- its lifetime is over.
pub record ExpiryLaws (r : Redis) (Later : ℕ → r.State → r.State → Type 0) : Type 0 where
  pub lasts :
      (k v : String) (ttl t : ℕ) (s u : r.State)
      → (r.set k v ttl s).0 ≡ ok tt
      → Later t (r.set k v ttl s).1 u
      → t < ttl / millisecond * millisecond
      → r.exists k u ≡ true

-- golang-jwt finds no token valid whose time is over.
pub record JwtExpiry (jwt : Jwt) : Type 0 where
  pub parse_early :
      (now : Time) (key : SigningMethod → Result String) (token : String) (c : Claims)
      → jwt.parse now key token ≡ ok (c, true)
      → now < c.expires_at
