-- ===== src/Auth/Token.antt =====
-- internal/auth/token.go. The library golang-jwt is a parameter: how it signs claims, and how it
-- parses a token with a function that picks the key for the token's signing method.
use bank_system.Prelude.{
  ℕ, ◌≡◌, ◌<◌, ◌/◌, ◌+◌, ◌-◌, ◌*◌, String, str_append, Bool, true, not, ltb, leb, if◌then◌else◌,
}
use bank_system.Errs.{plain, wrap}
use bank_system.Model.{Uuid, Time}
use bank_system.External.{Result, ok, err, Env, Redis}

-- 24 hours, in nanoseconds.
abbrev pub token_ttl : ℕ
token_ttl = 24 * 3600 * 1_000_000_000

abbrev pub second : ℕ
second = 1_000_000_000

abbrev pub blacklist_prefix : String
blacklist_prefix = "vault:blacklist:"

-- The registered claims that the program sets, and its own.
pub record Claims : Type 0 where
  pub id : String
  pub issuer : String
  pub subject : String
  pub issued_at : Time
  pub expires_at : Time
  pub user_id : Uuid
  pub username : String
  pub is_system_user : Bool

pub data SigningMethod : Type 0 where
  hmac : SigningMethod
  other : String → SigningMethod

pub record Jwt : Type 0 where
  pub sign : String → Claims → Result String
  pub parse : Time → (SigningMethod → Result String) → String → Result (Claims × Bool)

-- Times in a token are whole seconds.
abbrev pub whole_seconds : Time → Time
whole_seconds t = t / second * second

abbrev pub in_token : Claims → Claims
in_token c = record c {
  issued_at = whole_seconds c.issued_at;
  expires_at = whole_seconds c.expires_at;
}

-- Before it expires, a token is parsed to the claims that were signed, by the key that signed them.
-- Tokens are signed by an HMAC method.
pub record JwtLaws (jwt : Jwt) : Type 0 where
  pub parse-sign :
      (secret token : String) (c : Claims) (now : Time) (key : SigningMethod → Result String)
      → jwt.sign secret c ≡ ok token
      → key hmac ≡ ok secret
      → now < whole_seconds c.expires_at
      → jwt.parse now key token ≡ ok (in_token c, true)

unfoldable pub keep_valid : Result (Claims × Bool) → Result Claims
keep_valid (err e) = err (wrap "parse token: " e)
keep_valid (ok (claims, valid)) =
    if not valid then err (plain "invalid token claims") else ok claims

-- The function that hands the secret out, for HMAC methods alone.
unfoldable pub signing_key : String → SigningMethod → Result String
signing_key secret hmac = ok secret
signing_key secret (other alg) = err (plain (str_append "unexpected signing method: " alg))

unfoldable pub signed_token : Result String → String → Result (String × String)
signed_token (ok token) jti = ok (token, jti)
signed_token (err e) jti = err (wrap "sign token: " e)

module _ (jwt : Jwt) (secret : String) where
  -- `IssueToken` at a time and with the UUID that it draws for the token.
  unfoldable pub issue_token : Env → Time → Uuid → Uuid → String → Bool → Result (String × String)
  unfolding signed_token
  issue_token env now drawn user_id username is_system_user =
      let jti = env.uuid_string drawn in
      signed_token
        (jwt.sign secret (record {
          id = jti;
          issuer = "omniledger";
          subject = env.uuid_string user_id;
          issued_at = now;
          expires_at = now + token_ttl;
          user_id = user_id;
          username = username;
          is_system_user = is_system_user;
        }))
        jti

  unfoldable pub validate_token : Time → String → Result Claims
  unfolding keep_valid signing_key
  validate_token now token = keep_valid (jwt.parse now (signing_key secret) token)

-- The remaining lifetime of a token, and a second where that is over.
unfoldable pub remaining : Time → Time → ℕ
remaining now expiry = if leb expiry now then second else expiry - now

unfoldable pub stored : {R : Type 0} → Result (Unit {0}) × R → Result (Unit {0}) × R
stored (ok _, s) = (ok tt, s)
stored (err e, s) = (err (wrap "blacklist token: " e), s)

unfoldable pub is_positive_count : Result ℕ → Result Bool
is_positive_count (ok n) = ok (ltb 0 n)
is_positive_count (err e) = err (wrap "check blacklist: " e)

module _ (r : Redis) where
  unfoldable pub blacklist_token : Time → String → Time → r.State → Result (Unit {0}) × r.State
  unfolding stored remaining
  blacklist_token now jti expiry s =
      stored (r.set (str_append blacklist_prefix jti) "blacklisted" (remaining now expiry) s)

  unfoldable pub is_blacklisted : String → r.State → Result Bool
  unfolding is_positive_count
  is_blacklisted jti s = is_positive_count (r.exists_reply (str_append blacklist_prefix jti) s)
