-- ===== src/Auth/Tests/Sequences.antt =====
-- The theorems on a registration, a login and a request after it, at concrete inputs.
use bank_system.Prelude.{◌-◌, ◌≡◌, refl, [], some, arith, false, true}
use bank_system.Model.{User, AuthResponse}
use bank_system.External.{Result, ok}
use bank_system.Store.Action.{
  Session, pure, raise, gets, ◌>>=◌, raise_if, modify, wrapping, new_uuid, statement, enforce,
  auto_commit,
}
use bank_system.Store.Queries.{single}
use bank_system.Store.Users.{
  user_violation, account_violation, found_user, get_user_by_username, get_user_by_email,
  is_first_user, insert_user_row, insert_account_row, create_user, create_account,
}
use bank_system.Auth.Token.{Claims, issue_token, signed_token, is_blacklisted, is_positive_count}
use bank_system.Auth.Middleware.{protect, background}
use bank_system.Auth.Service.{attempt, masked, issue, enroll, register, login}
use bank_system.Auth.Tickets.{claims_of}
use bank_system.Auth.Admission.{register-login}
use bank_system.Auth.Entry.{login-protect}
use bank_system.Fixtures.{calm, calm-IsCalm, jwt_of, asha, key_list, world, with_token, whoami}
use bank_system.Fixtures.Sessions.{
  bare, bare-laws, signs_one, signs_one-laws, newcomer, session, asha_creds,
}

abbrev noor : User
noor = record {
  id = 1003;
  username = "noor";
  email = "noor@bank.in";
  password_hash = "hunter22";
  full_name = "Noor";
  is_system_user = false;
  is_active = true;
  created_at = 0;
  updated_at = 0;
}

abbrev first_visit : Result AuthResponse × Session
first_visit = register calm (jwt_of asha) "secret" bare newcomer session

first_visit_ok : first_visit ≡ (ok (record { user = noor; token = "token" }), first_visit.1)
unfolding register raise_if attempt get_user_by_username get_user_by_email is_first_user enroll
    issue issue_token signed_token create_user create_account insert_user_row insert_account_row
    enforce modify auto_commit user_violation account_violation found_user single statement wrapping
    ◌>>=◌ gets pure raise new_uuid
first_visit_ok = refl

register-login_example :
    (resp : AuthResponse) × ((login calm
        (jwt_of asha)
        "secret"
        bare
        (record { username = "noor"; password = "hunter22" })
        first_visit.1).0
      ≡ ok resp)
    × (resp.user.id ≡ 1003)
    × (resp.user.username ≡ "noor")
register-login_example =
    register-login calm calm-IsCalm (jwt_of asha) "secret" bare newcomer session bare-laws
      (λ c. ("token", refl)) first_visit_ok

-- The claims of the token that a login of user 2 issues.
abbrev ticket : Claims
ticket = claims_of calm 2 1001 2 "asha" false

abbrev second_visit : Result AuthResponse × Session
second_visit = login calm (signs_one ticket) "secret" bare asha_creds session

abbrev asha_row : User
asha_row = record noor {
  id = 2;
  username = "asha";
  email = "asha";
  password_hash = "hash";
  full_name = "asha";
}

second_visit_ok : second_visit ≡ (ok (record { user = asha_row; token = "token" }), second_visit.1)
unfolding login raise_if masked get_user_by_username found_user issue issue_token signed_token
    single statement wrapping ◌>>=◌ gets pure raise new_uuid
second_visit_ok = refl

unrevoked :
    is_blacklisted key_list (calm.uuid_string (calm.new_uuid (second_visit.1.calls - 1))) []
    ≡ ok false
unfolding is_blacklisted is_positive_count login raise_if masked get_user_by_username found_user
    issue issue_token signed_token single statement wrapping ◌>>=◌ gets pure raise new_uuid
unrevoked = refl

login-protect_example :
    (s1 : Session) × (s1.db ≡ world.session.db)
    × (protect key_list calm (signs_one ticket) "secret" whoami background with_token world
        ≡ whoami
            (record {
              user_id = some 2;
              username = some "asha";
              jti = some (calm.uuid_string (calm.new_uuid (second_visit.1.calls - 1)));
            })
            with_token
            (record world { session = s1 }))
login-protect_example =
    login-protect key_list calm (signs_one ticket) "secret" bare whoami background with_token world
      (signs_one-laws ticket) asha_creds session second_visit_ok refl (ground arith) unrevoked refl
      refl
