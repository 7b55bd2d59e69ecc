-- ===== src/Auth/Tests/Accounts.antt =====
-- The theorems on registrations and logins at concrete inputs.
use bank_system.Prelude.{ℕ, String, ◌≡◌, refl, ◌⊎◌, length, ◌==◌, true, false}
use bank_system.Model.{User, AuthResponse}
use bank_system.External.{Result, ok}
use bank_system.Store.Action.{
  Session, pure, raise, gets, ◌>>=◌, raise_if, modify, wrapping, new_uuid, statement, enforce,
  auto_commit,
}
use bank_system.Store.Queries.{single}
use bank_system.Store.Users.{
  user_violation, account_violation, found_user, get_user_by_username, get_user_by_email,
  is_first_user, insert_user_row, insert_account_row, create_user, create_account,
}
use bank_system.Store.Roster.{IsRoster}
use bank_system.Store.Consistency.{IsConsistent}
use bank_system.Auth.Token.{Claims, issue_token, signed_token}
use bank_system.Auth.Service.{
  bcrypt_cost, lacks_field, attempt, masked, issue, enroll, register, login,
}
use bank_system.Auth.Enrollment.{IsEnrolled, HasLeft}
use bank_system.Auth.Registration.{register-IsEnrolled}
use bank_system.Auth.Residue.{register-IsRoster, register-HasLeft}
use bank_system.Auth.Tickets.{claims_of}
use bank_system.Auth.Login.{IsLetIn, login-IsLetIn}
use bank_system.Fixtures.{tables, tables-IsConsistent, calm, jwt_of, asha}
use bank_system.Fixtures.Sessions.{bare, signs_one, tables-IsRoster, newcomer, session, asha_creds}

abbrev registered : Result AuthResponse × Session
registered = register calm (jwt_of asha) "secret" bare newcomer session

abbrev enrolled : AuthResponse
enrolled = record {
  user = record {
    id = 1003;
    username = "noor";
    email = "noor@bank.in";
    password_hash = "hunter22";
    full_name = "Noor";
    is_system_user = false;
    is_active = true;
    created_at = 0;
    updated_at = 0;
  };
  token = "token";
}

registered_ok : registered ≡ (ok enrolled, registered.1)
unfolding register raise_if attempt get_user_by_username get_user_by_email is_first_user enroll
    issue issue_token signed_token create_user create_account insert_user_row insert_account_row
    enforce modify auto_commit user_violation account_violation found_user single statement wrapping
    ◌>>=◌ gets pure raise new_uuid
registered_ok = refl

register-IsEnrolled_example :
    (lacks_field newcomer ≡ false)
    × ((hash : String) × (salt : ℕ) × (bare.generate salt newcomer.password bcrypt_cost ≡ ok hash)
        × IsEnrolled calm
            (jwt_of asha)
            "secret"
            bare
            newcomer
            hash
            (length tables.users == 0)
            tables
            registered.1.db
            enrolled)
register-IsEnrolled_example =
    register-IsEnrolled calm (jwt_of asha) "secret" bare newcomer session registered_ok

register-IsRoster_example : IsRoster registered.1.db × IsConsistent registered.1.db
register-IsRoster_example =
    register-IsRoster calm (jwt_of asha) "secret" bare newcomer session tables-IsRoster
      tables-IsConsistent

register-HasLeft_example :
    (registered.1.db ≡ tables)
    ⊎ ((hash : String) × (salt : ℕ) × (bare.generate salt newcomer.password bcrypt_cost ≡ ok hash)
        × HasLeft newcomer hash (length tables.users == 0) tables registered.1.db)
register-HasLeft_example = register-HasLeft calm (jwt_of asha) "secret" bare newcomer session

-- The claims of the token that a login of user 2 issues, at its second and third call.
abbrev let_in : Claims
let_in = claims_of calm 2 1001 2 "asha" false

abbrev asha_user : User
asha_user = record {
  id = 2;
  username = "asha";
  email = "asha";
  password_hash = "hash";
  full_name = "asha";
  is_system_user = false;
  is_active = true;
  created_at = 0;
  updated_at = 0;
}

abbrev logged_in : Result AuthResponse × Session
logged_in = login calm (signs_one let_in) "secret" bare asha_creds session

logged_in_ok : logged_in ≡ (ok (record { user = asha_user; token = "token" }), logged_in.1)
unfolding login raise_if masked get_user_by_username found_user issue issue_token signed_token
    single statement wrapping ◌>>=◌ gets pure raise new_uuid
logged_in_ok = refl

login-IsLetIn_example :
    IsLetIn calm
      (signs_one let_in)
      "secret"
      bare
      asha_creds
      tables
      logged_in.1.calls
      (record { user = asha_user; token = "token" })
login-IsLetIn_example =
    login-IsLetIn calm (signs_one let_in) "secret" bare asha_creds session logged_in_ok
