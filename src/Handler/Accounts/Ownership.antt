-- ===== src/Handler/Accounts/Ownership.antt =====
-- Who is served by the endpoints on one account.
use bank_system.Prelude.{
  ◌+◌, ◌<◌, ℕ, String, true, false, ◌≡◌, refl, sym, ap, ◌∙◌, ◌⊎◌, inl, inr, none, some, List, any,
  find, All, ◌==◌, arith, Option-cases,
}
use mathlib.Core.Path.{subst}
use bank_system.Prelude.Sort.{All-sort, any-sort}
use bank_system.Errs.{Error}
use bank_system.Model.{Uuid, Account}
use bank_system.External.{Result, ok, err, Env}
use bank_system.Store.Action.{Session}
use bank_system.Store.History.{older, get_accounts_by_user_id}
use bank_system.Auth.Middleware.{Context, user_id_from_ctx, Request, Response, refuse}
use bank_system.Transfer.{World}
use bank_system.Handler.Accounts.{Params, Parsers, check_owner, serve_owned, handle_owned}
use bank_system.Handler.Accounts.Owned.{
  is_owned, filter-All_owned, any-filter_owned, find-All, find-any, get_accounts_by_user_id_err,
  get_accounts_by_user_id_ok, get_accounts_by_user_id_calls,
}

check_owner_cases :
    {A : Type 0} (id : Uuid) (r : Result (List Account))
    → ((text : String) × (e : Error) × (r ≡ err e)
        × (check_owner {A = A} id r ≡ inl (refuse 500 text)))
      ⊎ (((text : String) × (l : List Account) × (r ≡ ok l)
            × (find (λ b. b.id == id) l ≡ none)
            × (check_owner {A = A} id r ≡ inl (refuse 403 text)))
          ⊎ ((l : List Account) × (a : Account) × (r ≡ ok l)
              × (find (λ b. b.id == id) l ≡ some a)
              × (check_owner {A = A} id r ≡ inr a)))
unfolding check_owner
check_owner_cases id (err e) = inl ("failed to verify account ownership", e, refl, refl)
check_owner_cases id (ok l) = elim (Option-cases (find (λ b. b.id == id) l)) [
  | inl e ↦
      inr (
        inl ("account does not belong to authenticated user", l, refl, e, rw (e, check_owner) refl))
  | inr (a, e) ↦ inr (inr (l, a, refl, e, rw (e, check_owner) refl))
]

module _ (ps : Parsers) (env : Env) (params : Params) (ctx : Context) {R : Type 0}
    (w : World R) where
  -- Why a request may be refused, with which status: the path has no UUID, the account is not the
  -- user's, or one of the first three calls of the server has failed.
  pub data Excuse (status : ℕ) : Type 0 where
    unparsed : status ≡ 400 → ps.parse_uuid params.id ≡ none → Excuse status
    not_owner :
        (id : Uuid)
        → status ≡ 403
        → ps.parse_uuid params.id ≡ some id
        → is_owned (user_id_from_ctx ctx) id w.session.db.accounts ≡ false
        → Excuse status
    call_failed :
        (k : ℕ) (m : String)
        → status ≡ 500
        → k < 3
        → env.fault (w.session.calls + k) ≡ some m
        → Excuse status

module _ (ps : Parsers) (env : Env) {R A B : Type 0}
    (serve : Uuid → Account → Session → Response A × Session) (params : Params) (ctx : Context)
    (req : Request B) (w : World R) where
  -- An error status before the account is served, which leaves the tables and Redis as they were.
  pub record IsTurnedAway (p : Response A × World R) : Type 0 where
    pub status : ℕ
    pub text : String
    pub answered : p.0 ≡ refuse status text
    pub excuse : Excuse ps env params ctx w status
    pub db : p.1.session.db ≡ w.session.db
    pub redis : p.1.redis ≡ w.redis

  -- The account of the path is served, on the same tables, and belongs to the user of the context.
  pub record IsServed (p : Response A × World R) : Type 0 where
    pub account_id : Uuid
    pub account : Account
    pub session : Session
    pub parsed : ps.parse_uuid params.id ≡ some account_id
    pub right_account : account.id ≡ account_id
    pub owned : is_owned (user_id_from_ctx ctx) account_id w.session.db.accounts ≡ true
    pub same_db : session.db ≡ w.session.db
    pub calls : session.calls ≡ w.session.calls + 1
    pub answered : p.0 ≡ (serve account_id account session).0
    pub after : p.1.session ≡ (serve account_id account session).1
    pub redis : p.1.redis ≡ w.redis

  abbrev asked : Result (List Account) × Session
  asked = get_accounts_by_user_id env (user_id_from_ctx ctx) w.session

  handle_owned_parsed :
      (id : Uuid)
      → ps.parse_uuid params.id ≡ some id
      → handle_owned ps env serve params ctx req w
        ≡ serve_owned (serve id) (check_owner id asked.0) (record w { session = asked.1 })
  unfolding handle_owned
  handle_owned_parsed id e = rw (e, handle_owned) refl

  handle_owned_unparsed :
      ps.parse_uuid params.id ≡ none
      → handle_owned ps env serve params ctx req w ≡ (refuse 400 "invalid account id", w)
  unfolding handle_owned
  handle_owned_unparsed e = rw (e, handle_owned) refl

  owned_of_found :
      (id : Uuid) (l : List Account) (a : Account)
      → asked.0 ≡ ok l
      → find (λ b. b.id == id) l ≡ some a
      → (is_owned (user_id_from_ctx ctx) id w.session.db.accounts ≡ true) × (a.id ≡ id)
  owned_of_found id l a got f =
      let IsOwned : Account → Type 0 =
        λ b. is_owned (user_id_from_ctx ctx) b.id w.session.db.accounts ≡ true in
      let rows =
        All-sort (older (env.rank w.session.calls)) IsOwned _
          (filter-All_owned (user_id_from_ctx ctx) w.session.db.accounts) in
      let (_, listed) = get_accounts_by_user_id_ok env (user_id_from_ctx ctx) w.session in
      let (own, same) = find-All IsOwned id l (subst (All IsOwned) (sym (listed l got)) rows) f in
      (subst (λ i. is_owned (user_id_from_ctx ctx) i w.session.db.accounts ≡ true) same own, same)

  not_owned_of_lost :
      (id : Uuid) (l : List Account)
      → asked.0 ≡ ok l
      → find (λ b. b.id == id) l ≡ none
      → is_owned (user_id_from_ctx ctx) id w.session.db.accounts ≡ false
  not_owned_of_lost id l got f =
      let (_, listed) = get_accounts_by_user_id_ok env (user_id_from_ctx ctx) w.session in
      sym (any-filter_owned (user_id_from_ctx ctx) id w.session.db.accounts)
      ∙ sym (any-sort (older (env.rank w.session.calls)) (λ a. a.id == id) _)
      ∙ ap (any (λ a. a.id == id)) (sym (listed l got))
      ∙ find-any id l f

  -- A request for one account is turned away with an error, or the account of the path belongs to
  -- the user of the context and is served, on the tables as they are.
  pub handle_owned_sound :
      IsTurnedAway (handle_owned ps env serve params ctx req w)
      ⊎ IsServed (handle_owned ps env serve params ctx req w)
  unfolding serve_owned
  handle_owned_sound = elim (Option-cases (ps.parse_uuid params.id)) [
    | inl e ↦ rw (handle_owned_unparsed e) (
        inl (record {
          status = 400;
          text = "invalid account id";
          answered = refl;
          excuse = unparsed refl e;
          db = refl;
          redis = refl;
        }))
    | inr (id, e) ↦
        let (kept, _) = get_accounts_by_user_id_ok env (user_id_from_ctx ctx) w.session in
        let w' : World R = record w { session = asked.1 } in
        elim (check_owner_cases {A = A} id asked.0) [
          | inl (text, error, got, c) ↦
              let (m, failed) =
                get_accounts_by_user_id_err env (user_id_from_ctx ctx) w.session error got in
              let here : w.session.calls + 0 ≡ w.session.calls = omega arith in
              rw (handle_owned_parsed id e ∙ ap (λ x. serve_owned (serve id) x w') c) (
                inl (record {
                  status = 500;
                  text = text;
                  answered = refl;
                  excuse = call_failed 0 m refl (omega arith) (ap env.fault here ∙ failed);
                  db = kept;
                  redis = refl;
                }))
          | inr (inl (text, l, got, f, c)) ↦
              rw (handle_owned_parsed id e ∙ ap (λ x. serve_owned (serve id) x w') c) (
                inl (record {
                  status = 403;
                  text = text;
                  answered = refl;
                  excuse = not_owner id refl e (not_owned_of_lost id l got f);
                  db = kept;
                  redis = refl;
                }))
          | inr (inr (l, a, got, f, c)) ↦
              let (own, same) = owned_of_found id l a got f in
              rw (handle_owned_parsed id e ∙ ap (λ x. serve_owned (serve id) x w') c) (
                inr (record {
                  account_id = id;
                  account = a;
                  session = asked.1;
                  parsed = e;
                  right_account = same;
                  owned = own;
                  same_db = kept;
                  calls = get_accounts_by_user_id_calls env (user_id_from_ctx ctx) w.session;
                  answered = refl;
                  after = refl;
                  redis = refl;
                }))
        ]
  ]
