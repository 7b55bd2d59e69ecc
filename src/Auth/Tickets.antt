-- ===== src/Auth/Tickets.antt =====
-- What becomes of tokens that were issued, in internal/auth/token.go.
use bank_system.Prelude.{◌+◌, ◌<◌, String, Bool, ◌≡◌, refl, ap, arith}
use bank_system.Model.{Uuid, Time}
use bank_system.External.{Result, ok, err, Env}
use bank_system.Auth.Token.{
  Claims, Jwt, JwtLaws, token_ttl, whole_seconds, in_token, issue_token, signed_token,
  validate_token, keep_valid, signing_key,
}

-- The claims of `IssueToken`.
abbrev pub claims_of : Env → Time → Uuid → Uuid → String → Bool → Claims
claims_of env now drawn user_id username is_system_user = record {
  id = env.uuid_string drawn;
  issuer = "omniledger";
  subject = env.uuid_string user_id;
  issued_at = now;
  expires_at = now + token_ttl;
  user_id = user_id;
  username = username;
  is_system_user = is_system_user;
}

signed_token_ok :
    (r : Result String) (jti token jti' : String)
    → signed_token r jti ≡ ok (token, jti')
    → (r ≡ ok token) × (jti' ≡ jti)
unfolding signed_token
signed_token_ok (ok t) jti token jti' h = (ground arith, ground arith)
signed_token_ok (err e) jti token jti' h = absurd (cc)

module _ (jwt : Jwt) (secret : String) (laws : JwtLaws jwt) (env : Env) (now : Time)
    (drawn user_id : Uuid) (username : String) (is_system_user : Bool) where
  -- Until it expires, a token that was issued validates, to the claims that it was issued for, its
  -- times rounded down to whole seconds; the id that `IssueToken` returns is the one in the claims.
  pub validate_token-issue_token :
      (token jti : String) (later : Time)
      → issue_token jwt secret env now drawn user_id username is_system_user ≡ ok (token, jti)
      → later < whole_seconds (now + token_ttl)
      → (validate_token jwt secret later token
          ≡ ok (in_token (claims_of env now drawn user_id username is_system_user)))
        × (jti ≡ env.uuid_string drawn)
  unfolding issue_token validate_token
  validate_token-issue_token token jti later issued early =
      let (signed, named) = signed_token_ok _ _ token jti issued in
      let parsed = laws.parse-sign secret token _ later (signing_key secret) signed refl early in
      (ap keep_valid parsed, named)
