-- ===== src/Auth/Guards.antt =====
-- What `Protect` lets through.
use bank_system.Prelude.{
  ℕ, String, Bool, true, false, ◌&&◌, ◌≡◌, refl, ◌⊎◌, inl, inr, Option, none, some, any, ◌==◌, ◌≤◌,
  arith,
}
use bank_system.Model.{Uuid}
use bank_system.External.{Result, ok, err, Env, Redis}
use bank_system.Store.Action.{Session, gets, ◌>>=◌, wrapping}
use bank_system.Store.Queries.{single, is_frozen}
use bank_system.Auth.Token.{Claims, Jwt, validate_token, is_blacklisted}
use bank_system.Auth.Middleware.{
  Context, Request, Response, Handler, refuse, is_account_frozen, pass_active, pass_fresh,
  pass_valid, pass_cookie, protect,
}
use bank_system.Transfer.{World}

is_account_frozen_ok :
    (env : Env) (user_id : Uuid) (s : Session)
    → ((is_account_frozen env user_id s).1.db ≡ s.db)
      × ((b : Bool)
          → (is_account_frozen env user_id s).0 ≡ ok b
          → any (λ a. a.user_id == user_id && is_frozen a.status) s.db.accounts ≡ b)
unfolding is_account_frozen single wrapping ◌>>=◌ gets
is_account_frozen_ok env user_id s = (ground arith, λ b h. ground arith)

module _ (r : Redis) (env : Env) (jwt : Jwt) (secret : String) {B A : Type 0}
    (next : Handler r.State B A) (ctx : Context) (req : Request B) (w : World r.State) where
  -- A refusal by the middleware: an error status, and nothing has changed.
  pub record IsRefused (p : Response A × World r.State) : Type 0 where
    pub status : ℕ
    pub text : String
    pub answered : p.0 ≡ refuse status text
    pub failed : 401 ≤ status
    pub db : p.1.session.db ≡ w.session.db
    pub redis : p.1.redis ≡ w.redis

  -- What holds where the handler behind the middleware runs.
  pub record IsAdmitted (p : Response A × World r.State) : Type 0 where
    pub token : String
    pub claims : Claims
    pub cookie : req.cookie ≡ some token
    pub genuine : validate_token jwt secret (env.now w.session.calls) token ≡ ok claims
    pub not_revoked : is_blacklisted r claims.id w.redis ≡ ok false
    pub not_frozen :
        any (λ a. a.user_id == claims.user_id && is_frozen a.status) w.session.db.accounts ≡ false
    pub session : Session
    pub same_db : session.db ≡ w.session.db
    pub ran :
        p
        ≡ next
            (record {
              user_id = some claims.user_id;
              username = some claims.username;
              jti = some claims.id;
            })
            req
            (record w { session = session })

  abbrev Verdict : Response A × World r.State → Type 0
  Verdict p = IsRefused p ⊎ IsAdmitted p

  refused :
      (status : ℕ) (text : String) (s : Session)
      → 401 ≤ status
      → s.db ≡ w.session.db
      → Verdict (refuse status text, record w { session = s })
  refused status text s failed same = inl (record {
    status = status;
    text = text;
    answered = refl;
    failed = failed;
    db = same;
    redis = refl;
  })

  module _ (token : String) (claims : Claims) (cookie : req.cookie ≡ some token)
      (genuine : validate_token jwt secret (env.now w.session.calls) token ≡ ok claims) where
    abbrev NoFrozen : Bool → Type 0
    NoFrozen b =
        any (λ a. a.user_id == claims.user_id && is_frozen a.status) w.session.db.accounts ≡ b

    pass_active_sound :
        (frozen : Result Bool) (s : Session)
        → is_blacklisted r claims.id w.redis ≡ ok false
        → s.db ≡ w.session.db
        → ((b : Bool) → frozen ≡ ok b → NoFrozen b)
        → Verdict
            (pass_active r env jwt secret next claims ctx req frozen (record w { session = s }))
    unfolding pass_active
    pass_active_sound (err e) s fresh same look = refused 500 _ s (omega arith) same
    pass_active_sound (ok true) s fresh same look = refused 403 _ s (omega arith) same
    pass_active_sound (ok false) s fresh same look = inr (record {
      token = token;
      claims = claims;
      cookie = cookie;
      genuine = genuine;
      not_revoked = fresh;
      not_frozen = look false refl;
      session = s;
      same_db = same;
      ran = refl;
    })

    pass_fresh_sound :
        (revoked : Result Bool)
        → is_blacklisted r claims.id w.redis ≡ revoked
        → Verdict (pass_fresh r env jwt secret next claims ctx req revoked w)
    unfolding pass_fresh
    pass_fresh_sound (err e) h = refused 500 _ w.session (omega arith) refl
    pass_fresh_sound (ok true) h = refused 401 _ w.session (omega arith) refl
    pass_fresh_sound (ok false) h =
        let (same, look) = is_account_frozen_ok env claims.user_id w.session in
        pass_active_sound (is_account_frozen env claims.user_id w.session).0
          (is_account_frozen env claims.user_id w.session).1 h same look

  pass_valid_sound :
      (token : String) (claims : Result Claims)
      → req.cookie ≡ some token
      → validate_token jwt secret (env.now w.session.calls) token ≡ claims
      → Verdict (pass_valid r env jwt secret next ctx req claims w)
  unfolding pass_valid
  pass_valid_sound token (err e) cookie h = refused 401 _ w.session (omega arith) refl
  pass_valid_sound token (ok claims) cookie h =
      pass_fresh_sound token claims cookie h (is_blacklisted r claims.id w.redis) refl

  pass_cookie_sound :
      (cookie : Option String)
      → req.cookie ≡ cookie
      → Verdict (pass_cookie r env jwt secret next ctx req cookie w)
  unfolding pass_cookie
  pass_cookie_sound none e = refused 401 _ w.session (omega arith) refl
  pass_cookie_sound (some token) e = pass_valid_sound token _ e refl

  -- A request behind `Protect` is refused with an error status and changes nothing, or its cookie
  -- holds a token that validates, has not been revoked, and belongs to a user with no frozen
  -- account; then the handler runs with the user, the name and the id of that token.
  pub protect_sound :
      IsRefused (protect r env jwt secret next ctx req w)
      ⊎ IsAdmitted (protect r env jwt secret next ctx req w)
  unfolding protect
  protect_sound = pass_cookie_sound req.cookie refl
