-- ===== src/Fixtures/Sessions.antt =====
-- Concrete packages and requests for the tests of registrations and logins.
use bank_system.Prelude.{
  String, str_eq, str_eq_iff, Bool, true, false, ◌&&◌, ◌==◌, ◌≡◌, refl, [], arith, if◌then◌else◌,
}
use bank_system.Errs.{plain}
use bank_system.Model.{RegisterRequest, LoginRequest}
use bank_system.External.{ok, err}
use bank_system.Store.Action.{Session}
use bank_system.Store.Roster.{IsRoster}
use bank_system.Auth.Token.{Claims, hmac, Jwt, JwtLaws, in_token}
use bank_system.Auth.Service.{Bcrypt, BcryptLaws}
use bank_system.Fixtures.{tables, accepts}

-- Hashes that are the passwords.
abbrev pub bare : Bcrypt
bare = record {
  generate = λ salt password cost. ok password;
  compare_hash = λ hash password. if str_eq hash password then ok tt else err (plain "mismatch");
}

pub bare-laws : BcryptLaws bare
bare-laws = record {
  compare-generate = λ salt password cost hash h. ground (arith, str_eq_iff hash password);
}

-- A library that signs the claims of one token alone.
abbrev pub same_claims : Claims → Claims → Bool
same_claims c d =
    str_eq c.id d.id
    && str_eq c.issuer d.issuer
    && str_eq c.subject d.subject
    && c.issued_at == d.issued_at
    && c.expires_at == d.expires_at
    && c.user_id == d.user_id
    && str_eq c.username d.username
    && (if c.is_system_user then d.is_system_user else if d.is_system_user then false else true)

abbrev pub signs_one : Claims → Jwt
signs_one one = record {
  sign = λ secret c. if same_claims c one then ok "token" else err (plain "cannot sign");
  parse = λ now key token. accepts (in_token one) (key hmac) token;
}

same_bools : (a b : Bool) → (if a then b else if b then false else true) ≡ true → a ≡ b
same_bools true true h = refl
same_bools true false h = absurd (ground arith)
same_bools false true h = absurd (ground arith)
same_bools false false h = refl

same_claims_lem : (c d : Claims) → same_claims c d ≡ true → c ≡ d
same_claims_lem c d h =
    let id : c.id ≡ d.id = ground (arith, str_eq_iff c.id d.id) in
    let issuer : c.issuer ≡ d.issuer = ground (arith, str_eq_iff c.issuer d.issuer) in
    let subject : c.subject ≡ d.subject = ground (arith, str_eq_iff c.subject d.subject) in
    let username : c.username ≡ d.username = ground (arith, str_eq_iff c.username d.username) in
    let issued_at : c.issued_at ≡ d.issued_at = ground arith in
    let expires_at : c.expires_at ≡ d.expires_at = ground arith in
    let user_id : c.user_id ≡ d.user_id = ground arith in
    let system : c.is_system_user ≡ d.is_system_user =
      same_bools c.is_system_user d.is_system_user (ground arith) in
    cc

accepted :
    (b : Bool) (secret token : String) (c one : Claims)
    → (if b then ok "token" else err (plain "cannot sign")) ≡ ok token
    → (b ≡ true → c ≡ one)
    → accepts (in_token one) (ok secret) token ≡ ok (in_token c, true)
accepted true secret token c one h same =
    let named : token ≡ "token" = ground arith in rw (named, same refl) refl
accepted false secret token c one h same = absurd (cc)

pub signs_one-laws : (one : Claims) → JwtLaws (signs_one one)
signs_one-laws one = record {
  parse-sign = λ secret token c now key h k early.
      rw k (accepted (same_claims c one) secret token c one h (same_claims_lem c one));
}

pub tables-IsRoster : IsRoster tables
tables-IsRoster = record {
  ids = (refl, (refl, (refl, (refl, tt))));
  usernames = (refl, (refl, (refl, (refl, tt))));
  emails = (refl, (refl, (refl, (refl, tt))));
  account_ids = (refl, (refl, (refl, (refl, tt))));
  owned = (refl, (refl, (refl, (refl, tt))));
}

abbrev pub newcomer : RegisterRequest
newcomer = record {
  username = "noor";
  email = "noor@bank.in";
  password = "hunter22";
  full_name = "Noor";
}

abbrev pub session : Session
session = record { db = tables; calls = 0; locks = []; clock = 0 }

-- Asha's password is her hash.
abbrev pub asha_creds : LoginRequest
asha_creds = record { username = "asha"; password = "hash" }
