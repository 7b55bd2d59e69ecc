-- ===== src/Auth/Issuing.antt =====
-- What issuing a token does to its session.
use bank_system.Prelude.{◌+◌, String, ◌≡◌, refl, sym, ap, Bool}
use bank_system.Model.{Uuid}
use bank_system.External.{ok, Env}
use bank_system.Store.Action.{Session, gets, ◌>>=◌, new_uuid}
use bank_system.Auth.Token.{Jwt, issue_token}
use bank_system.Auth.Service.{issue}

module _ (env : Env) (jwt : Jwt) (secret : String) where
  pub issue_db :
      (user_id : Uuid) (name : String) (system : Bool) (s : Session)
      → (issue env jwt secret user_id name system s).1.db ≡ s.db
  unfolding issue new_uuid ◌>>=◌ gets
  issue_db user_id name system s = refl

  pub issue_ok :
      (user_id : Uuid) (name : String) (system : Bool) (s : Session) {token : String × String}
      {s' : Session}
      → issue env jwt secret user_id name system s ≡ (ok token, s')
      → (issue_token jwt secret env
            (env.now (s.calls + 1))
            (env.new_uuid s.calls)
            user_id
            name
            system
          ≡ ok token)
        × (s'.db ≡ s.db)
        × (s'.calls ≡ s.calls + 1)
  unfolding issue new_uuid ◌>>=◌ gets
  issue_ok user_id name system s h =
      (ap (λ x. x.0) h, sym (ap (λ x. x.1.db) h), sym (ap (λ x. x.1.calls) h))
