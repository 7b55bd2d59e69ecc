-- ===== src/Auth/Enrollment.antt =====
-- The rows of a registration: which of them are left, however it ends.
mod Rows
pub use Rows.{IsUserRow, IsAccountRow, HasBoth, HasLeft}
use bank_system.Prelude.{◌+◌, String, ◌≡◌, refl, sym, ap, ◌∙◌, ◌⊎◌, inl, inr, Bool, none, arith}
use mathlib.Core.Path.{subst}
use bank_system.Model.{Uuid, Time, User, Account, RegisterRequest, AuthResponse}
use bank_system.External.{ok, Env}
use bank_system.Store.Db.{Db}
use bank_system.Store.Action.{Session, Action, pure, gets, ◌>>=◌, wrapping, new_uuid}
use bank_system.Store.Users.{
  user_violation, account_violation, add_user, add_account, user_row, account_row, create_user,
  create_account,
}
use bank_system.Store.Keeps.{>>=_after}
use bank_system.Store.Inversion.{>>=_ok, wrapping_ok}
use bank_system.Store.Roster.{create_user_cases, create_account_cases}
use bank_system.Auth.Token.{Jwt, issue_token}
use bank_system.Auth.Issuing.{issue_db, issue_ok}
use bank_system.Auth.Service.{Bcrypt, new_user, default_account, issue, enroll}

module _ (env : Env) (jwt : Jwt) (secret : String) where
  module _ (bcrypt : Bcrypt) (req : RegisterRequest) (hash : String) (is_first : Bool)
      (d : Db) where
    abbrev Left : Session → Type 0
    Left s = HasLeft req hash is_first d s.db

    user_step :
        (p : String) (id : Uuid) (s : Session)
        → s.db ≡ d
        → Left (wrapping p (create_user env (new_user req id hash is_first)) s).1
    unfolding wrapping
    user_step p id s same = elim (create_user_cases env (new_user req id hash is_first) s) [
      | inl (_, kept) ↦ inl (kept ∙ same)
      | inr (fine, added) ↦ inr (
          inl (
            user_row (new_user req id hash is_first) (env.now s.calls),
            record { id = id; now = env.now s.calls; row = refl; insertable = rw same at fine },
            added ∙ ap (add_user _) same,
          ))
    ]

    user_step_ok :
        (p : String) (id : Uuid) (s : Session) {s1 : Session}
        → s.db ≡ d
        → wrapping p (create_user env (new_user req id hash is_first)) s ≡ (ok tt, s1)
        → (u : User) × IsUserRow req hash is_first d u × (s1.db ≡ add_user u d) × (u.id ≡ id)
    user_step_ok p id s same h =
        let ran = wrapping_ok _ _ s h in
        elim (create_user_cases env (new_user req id hash is_first) s) [
          | inl (failed, _) ↦ absurd (failed (ap (λ x. x.0) ran))
          | inr (fine, added) ↦ (
            user_row (new_user req id hash is_first) (env.now s.calls),
            record { id = id; now = env.now s.calls; row = refl; insertable = rw same at fine },
            sym (ap (λ x. x.1.db) ran) ∙ added ∙ ap (add_user _) same,
            refl,
          )
        ]

    module _ (u : User) (row : IsUserRow req hash is_first d u) where
      account_row_of :
          (id : Uuid) (s : Session)
          → s.db ≡ add_user u d
          → account_violation s.db (account_row (default_account id u.id) (env.now s.calls)) ≡ none
          → IsAccountRow req hash is_first d u
              (account_row (default_account id u.id) (env.now s.calls))
      account_row_of id s same fine = record {
        id = id;
        now = env.now s.calls;
        row = refl;
        insertable = rw same at fine;
      }

      account_step :
          (p : String) (id : Uuid) (s : Session)
          → s.db ≡ add_user u d
          → Left (wrapping p (create_account env (default_account id u.id)) s).1
      unfolding wrapping
      account_step p id s same = elim (create_account_cases env (default_account id u.id) s) [
        | inl (_, kept) ↦ inr (inl (u, row, kept ∙ same))
        | inr (fine, added) ↦
            inr (inr (u, _, row, account_row_of id s same fine, added ∙ ap (add_account _) same))
      ]

      account_step_ok :
          (p : String) (id : Uuid) (s : Session) {s1 : Session}
          → s.db ≡ add_user u d
          → wrapping p (create_account env (default_account id u.id)) s ≡ (ok tt, s1)
          → (a : Account) × IsAccountRow req hash is_first d u a
            × (s1.db ≡ add_account a (add_user u d))
      account_step_ok p id s same h =
          let ran = wrapping_ok _ _ s h in
          elim (create_account_cases env (default_account id u.id) s) [
            | inl (failed, _) ↦ absurd (failed (ap (λ x. x.0) ran))
            | inr (fine, added) ↦ (
              _,
              account_row_of id s same fine,
              sym (ap (λ x. x.1.db) ran) ∙ added ∙ ap (add_account _) same,
            )
          ]

    answer : Uuid → Action AuthResponse
    answer id = do
      token ← issue env jwt secret id req.username is_first
      pure (record { user = new_user req id hash is_first; token = token.0 })

    answer_db : (id : Uuid) (s : Session) → (answer id s).1.db ≡ s.db
    unfolding answer pure
    answer_db id s =
        >>=_after (λ s1. s1.db ≡ s.db) (issue env jwt secret id req.username is_first) _ s
          (λ e s1 h. sym (ap (λ x. x.1.db) h) ∙ issue_db env jwt secret id req.username is_first s)
          (λ t s1 h. sym (ap (λ x. x.1.db) h) ∙ issue_db env jwt secret id req.username is_first s)

    -- However the second half of a registration ends, it has left no row, the user's, or both.
    pub enroll-HasLeft :
        (s : Session) → s.db ≡ d → Left (enroll env jwt secret bcrypt req hash is_first s).1
    unfolding enroll answer new_uuid pure
    enroll-HasLeft s same =
        >>=_after Left (new_uuid env) _ s (λ e s1 h. inl (sym (ap (λ x. x.1.db) h) ∙ same))
          λ id s1 h1.
            let db1 : s1.db ≡ d = sym (ap (λ x. x.1.db) h1) ∙ same in
            >>=_after Left
              (wrapping "create user: " (create_user env (new_user req id hash is_first))) _ s1
              (λ e s2 h. subst (λ x. Left x.1) h (user_step "create user: " id s1 db1))
              λ _ s2 h2.
                let (u, row, db2, at) = user_step_ok "create user: " id s1 db1 h2 in
                >>=_after Left (new_uuid env) _ s2
                  (λ e s3 h. inr (inl (u, row, sym (ap (λ x. x.1.db) h) ∙ db2)))
                  λ account_id s3 h3.
                    let db3 : s3.db ≡ add_user u d = sym (ap (λ x. x.1.db) h3) ∙ db2 in
                    let account = λ (i : Uuid).
                      wrapping "create default account: "
                        (create_account env (default_account account_id i)) in
                    >>=_after Left (account id) _ s3
                      (λ e s4 h.
                        subst (λ x. Left x.1) h
                          (subst (λ i. Left (account i s3).1) at
                            (account_step u row _ account_id s3 db3)))
                      λ _ s4 h4.
                        let (a, owned, db4) =
                          account_step_ok u row _ account_id s3 db3
                            (subst (λ i. account i s3 ≡ (ok tt, s4)) (sym at) h4) in
                        inr (inr (u, a, row, owned, answer_db id s4 ∙ db4))

    -- What the second half of a registration has done that reports success.
    pub record IsEnrolled (after : Db) (resp : AuthResponse) : Type 0 where
      pub user : User
      pub account : Account
      pub user_row : IsUserRow req hash is_first d user
      pub account_row : IsAccountRow req hash is_first d user account
      pub rows : after ≡ add_account account (add_user user d)
      pub answered : resp.user ≡ new_user req user.id hash is_first
      pub drawn : Uuid
      pub now : Time
      pub jti : String
      pub issued :
          issue_token jwt secret env now drawn user.id req.username is_first ≡ ok (resp.token, jti)

    answer_ok :
        (id : Uuid) (s : Session) {resp : AuthResponse} {s' : Session}
        → answer id s ≡ (ok resp, s')
        → (s'.db ≡ s.db)
          × (resp.user ≡ new_user req id hash is_first)
          × ((drawn : Uuid) × (now : Time) × (jti : String) × (issue_token jwt secret env now drawn
                  id req.username is_first
                ≡ ok (resp.token, jti)))
    unfolding answer pure
    answer_ok id s {resp} h = >>=_ok _ _ s h λ token s1 e1 h1.
        let (issued, same, _) = issue_ok env jwt secret id req.username is_first s e1 in
        let got : resp.token ≡ token.0 = ground arith in
        (
          sym (ap (λ x. x.1.db) h1) ∙ same,
          ground arith,
          (_, _, token.1, issued ∙ ap (λ t. ok (t, token.1)) (sym got)),
        )

    pub enroll_ok :
        (s : Session) {resp : AuthResponse} {s' : Session}
        → s.db ≡ d
        → enroll env jwt secret bcrypt req hash is_first s ≡ (ok resp, s')
        → IsEnrolled s'.db resp
    unfolding enroll answer new_uuid pure
    enroll_ok s {resp} {s'} same h = >>=_ok _ _ s h λ id s1 e1 h1. >>=_ok _ _ s1 h1 λ _ s2 e2 h2.
        >>=_ok _ _ s2 h2 λ account_id s3 e3 h3. >>=_ok _ _ s3 h3 λ _ s4 e4 h4.
          let db1 : s1.db ≡ d = sym (ap (λ x. x.1.db) e1) ∙ same in
          let (u, row, db2, at) = user_step_ok "create user: " id s1 db1 e2 in
          let db3 : s3.db ≡ add_user u d = sym (ap (λ x. x.1.db) e3) ∙ db2 in
          let (a, owned, db4) = account_step_ok u row "create default account: " account_id s3 db3 (
            subst
              (λ i.
                wrapping "create default account: "
                  (create_account env (default_account account_id i)) s3
                ≡ (ok tt, s4))
              (sym at) e4) in
          let (kept, answered, (drawn, now, jti, issued)) = answer_ok id s4 h4 in
          record {
            user = u;
            account = a;
            user_row = row;
            account_row = owned;
            rows = kept ∙ db4;
            answered = rw at answered;
            drawn = drawn;
            now = now;
            jti = jti;
            issued = rw at issued;
          }
