-- ===== src/Auth/Service.antt =====
-- internal/service/auth.go: `AuthService`, and the cookies that carry a token. The package bcrypt is
-- a parameter.
use bank_system.Prelude.{
  ℕ, String, str_eq, Bool, true, false, not, ◌||◌, ◌≡◌, ◌/◌, Option, none, some,
}
use bank_system.Prelude.Int.{ℤ, pos, negsuc}
use bank_system.Errs.{Sentinel, sentinel}
use bank_system.Model.{
  Uuid, Time, User, Account, active, RegisterRequest, LoginRequest, AuthResponse,
}
use bank_system.External.{Result, ok, err, Env, Redis}
use bank_system.Store.Action.{Action, pure, gets, ◌>>=◌, ◌>>◌, raise_if, wrapping, new_uuid}
use bank_system.Store.Users.{
  get_user_by_username, get_user_by_email, is_first_user, create_user, create_account,
}
use bank_system.Auth.Token.{Jwt, issue_token, blacklist_token, token_ttl, second}

-- `GenerateFromPassword`, with the salt that the n-th call draws, on a password and a cost; and
-- `CompareHashAndPassword`, on a hash and a password.
pub record Bcrypt : Type 0 where
  pub generate : ℕ → String → ℕ → Result String
  pub compare_hash : String → String → Result (Unit {0})

-- A password fits the hash that was made of it.
pub record BcryptLaws (b : Bcrypt) : Type 0 where
  pub compare-generate :
      (salt : ℕ) (password : String) (cost : ℕ) (hash : String)
      → b.generate salt password cost ≡ ok hash
      → b.compare_hash hash password ≡ ok tt

abbrev pub bcrypt_cost : ℕ
bcrypt_cost = 12

-- A computation that only returns a value or an error.
abbrev pub lift : {A : Type 0} → Result A → Action A
lift r s = (r, s)

-- `v, _ := f()` for a pointer: nil on an error.
unfoldable pub attempt : {A : Type 0} → Action A → Action (Option A)
attempt m s = let (r, s') = m s in (elim r [ ok a ↦ ok (some a) | err e ↦ ok none ], s')

abbrev pub is_some : {A : Type 0} → Option A → Bool
is_some none = false
is_some (some a) = true

-- The user that `Register` makes.
abbrev pub new_user : RegisterRequest → Uuid → String → Bool → User
new_user req id hash is_first = record {
  id = id;
  username = req.username;
  email = req.email;
  password_hash = hash;
  full_name = req.full_name;
  is_system_user = is_first;
  is_active = true;
  created_at = 0;
  updated_at = 0;
}

abbrev pub default_account : Uuid → Uuid → Account
default_account id user_id = record {
  id = id;
  user_id = user_id;
  currency = "INR";
  status = active;
  created_at = 0;
}

abbrev pub lacks_field : RegisterRequest → Bool
lacks_field req =
    str_eq req.username ""
    || str_eq req.email ""
    || str_eq req.password ""
    || str_eq req.full_name ""

-- An error of the store or of bcrypt becomes `ErrInvalidCredentials`.
unfoldable pub masked : {A : Type 0} → Action A → Action A
masked m s =
    let (r, s') = m s in
    (elim r [ ok a ↦ ok a | err e ↦ err (sentinel Sentinel.invalid_credentials) ], s')

module _ (env : Env) (jwt : Jwt) (secret : String) where
  -- `IssueToken` in its session: it draws the token's id, and reads the clock.
  unfoldable pub issue : Uuid → String → Bool → Action (String × String)
  issue user_id username is_system_user = do
    drawn ← new_uuid env
    now ← gets (λ s. env.now s.calls)
    lift (issue_token jwt secret env now drawn user_id username is_system_user)

  module _ (bcrypt : Bcrypt) where
    -- The rows of a registration, and the token.
    unfoldable pub enroll : RegisterRequest → String → Bool → Action AuthResponse
    enroll req hash is_first = do
      user_id ← new_uuid env
      wrapping "create user: " (create_user env (new_user req user_id hash is_first))
      account_id ← new_uuid env
      wrapping "create default account: " (create_account env (default_account account_id user_id))
      token ← issue user_id req.username is_first
      pure (record { user = new_user req user_id hash is_first; token = token.0 })

    unfoldable pub register : RegisterRequest → Action AuthResponse
    register req = do
      raise_if (lacks_field req) (sentinel Sentinel.missing_fields)
      existing ← attempt (get_user_by_username env req.username)
      raise_if (is_some existing) (sentinel Sentinel.username_taken)
      existing_email ← attempt (get_user_by_email env req.email)
      raise_if (is_some existing_email) (sentinel Sentinel.email_taken)
      salt ← gets (λ s. s.calls)
      hash ← wrapping "bcrypt hash: " (lift (bcrypt.generate salt req.password bcrypt_cost))
      is_first ← wrapping "first user check: " (is_first_user env)
      enroll req hash is_first

    unfoldable pub login : LoginRequest → Action AuthResponse
    login req = do
      raise_if (str_eq req.username "" || str_eq req.password "") (sentinel Sentinel.missing_fields)
      user ← masked (get_user_by_username env req.username)
      raise_if (not user.is_active) (sentinel Sentinel.account_not_active)
      masked (lift (bcrypt.compare_hash user.password_hash req.password))
      token ← issue user.id user.username user.is_system_user
      pure (record { user = user; token = token.0 })

module _ (r : Redis) where
  unfoldable pub logout : Time → String → Time → r.State → Result (Unit {0}) × r.State
  logout now jti expiry s = blacklist_token r now jti expiry s

pub data SameSite : Type 0 where
  lax none_mode : SameSite

pub record Cookie : Type 0 where
  pub name : String
  pub value : String
  pub path : String
  pub http_only : Bool
  pub secure : Bool
  pub same_site : SameSite
  pub max_age : ℤ

-- The cookie of `SetTokenCookie`. It is Secure exactly if its SameSite mode is None.
unfoldable pub token_cookie : String → Bool → Cookie
token_cookie token secure = record {
  name = "vault_token";
  value = token;
  path = "/";
  http_only = true;
  secure = secure;
  same_site = elim secure [ true ↦ none_mode | false ↦ lax ];
  max_age = pos (token_ttl / second);
}

-- The cookie of `ClearTokenCookie`: a negative age expires it at once.
unfoldable pub cleared_cookie : Cookie
cleared_cookie = record {
  name = "vault_token";
  value = "";
  path = "/";
  http_only = true;
  secure = true;
  same_site = none_mode;
  max_age = negsuc 0;
}
