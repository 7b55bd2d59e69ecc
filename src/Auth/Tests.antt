-- ===== src/Auth/Tests.antt =====
-- The theorems on tokens and the middleware at concrete inputs.
mod Accounts
mod Sequences
use bank_system.Prelude.{◌⊎◌, ◌+◌, String, List, [], ltb, Bool, if◌then◌else◌}
use bank_system.Errs.{plain}
use bank_system.External.{err, Env}
use bank_system.Auth.Token.{Jwt, hmac, blacklist_token}
use bank_system.Auth.Middleware.{protect, background}
use bank_system.Auth.Guards.{IsRefused, IsAdmitted, protect_sound}
use bank_system.Transfer.{World}
use bank_system.Fixtures.{key_list, calm, world, jwt_of, accepts, asha, whoami, with_token}

protect_sound_example :
    let p = protect key_list calm (jwt_of asha) "secret" whoami background with_token world in
    IsRefused key_list calm (jwt_of asha) "secret" whoami background with_token world p
    ⊎ IsAdmitted key_list calm (jwt_of asha) "secret" whoami background with_token world p
protect_sound_example =
    protect_sound key_list calm (jwt_of asha) "secret" whoami background with_token world

-- A JWT library that accepts one token, until it expires.
abbrev timely : Jwt
timely = record (jwt_of asha) {
  parse = λ now key token.
      if ltb now asha.expires_at
      then accepts asha (key hmac) token
      else err (plain "token is expired");
}

abbrev at_three : Env
at_three = record calm { now = λ n. n + 3_000_000_000 }

abbrev logged_out : World (List String)
logged_out = record world {
  redis = (blacklist_token key_list 1_000_000_000 asha.id asha.expires_at []).1;
}
