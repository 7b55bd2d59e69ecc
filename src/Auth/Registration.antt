-- ===== src/Auth/Registration.antt =====
-- `Register`: what it has done when it returns.
use bank_system.Prelude.{ℕ, String, ◌≡◌, refl, sym, ap, ◌∙◌, false, ◌==◌, length}
use mathlib.Core.Path.{subst}
use bank_system.Model.{RegisterRequest, AuthResponse}
use bank_system.External.{ok, Env}
use bank_system.Store.Db.{Db}
use bank_system.Store.Action.{Session, gets, wrapping, raise_if}
use bank_system.Store.Users.{is_first_user}
use bank_system.Store.Keeps.{>>=_reads}
use bank_system.Store.Inversion.{>>=_ok, wrapping_ok, raise_if_ok}
use bank_system.Store.Roster.{get_user_by_username_lem, get_user_by_email_db, is_first_user_lem}
use bank_system.Auth.Token.{Jwt}
use bank_system.Auth.Service.{Bcrypt, bcrypt_cost, lift, attempt, lacks_field, enroll, register}
use bank_system.Auth.Enrollment.{HasLeft, IsEnrolled, enroll-HasLeft, enroll_ok}

module _ (env : Env) (jwt : Jwt) (secret : String) (bcrypt : Bcrypt) (req : RegisterRequest) where
  -- What holds of the tables before, and of any that the second half leaves, holds after
  -- `Register`, whatever it returns.
  pub register_elim :
      (P : Db → Type 0) (s : Session)
      → P s.db
      → ((hash : String) (salt : ℕ) (after : Db)
          → bcrypt.generate salt req.password bcrypt_cost ≡ ok hash
          → HasLeft req hash (length s.db.users == 0) s.db after
          → P after)
      → P (register env jwt secret bcrypt req s).1.db
  unfolding register raise_if gets attempt wrapping
  register_elim P s kept moved = >>=_reads P s.db (raise_if _ _) _ s refl refl kept λ _ s1 _ db1.
      >>=_reads P s.db (attempt _) _ s1 (get_user_by_username_lem env req.username s1).0 db1 kept
        λ _ s2 _ db2. >>=_reads P s.db (raise_if _ _) _ s2 refl db2 kept λ _ s3 _ db3.
          >>=_reads P s.db (attempt _) _ s3 (get_user_by_email_db env req.email s3) db3 kept
            λ _ s4 _ db4. >>=_reads P s.db (raise_if _ _) _ s4 refl db4 kept λ _ s5 _ db5.
              >>=_reads P s.db (gets _) _ s5 refl db5 kept λ salt s6 _ db6.
                >>=_reads P s.db
                  (wrapping "bcrypt hash: " (lift (bcrypt.generate salt req.password bcrypt_cost)))
                  _ s6 refl db6 kept
                  λ hash s7 h7 db7.
                    >>=_reads P s.db (wrapping "first user check: " (is_first_user env)) _ s7
                      (is_first_user_lem env s7).0 db7 kept
                      λ is_first s8 h8 db8.
                        let hashed =
                          ap (λ x. x.0)
                            (wrapping_ok "bcrypt hash: "
                              (lift (bcrypt.generate salt req.password bcrypt_cost)) s6 h7) in
                        let first = (is_first_user_lem env s7).1 is_first (
                          ap (λ x. x.0)
                            (wrapping_ok "first user check: " (is_first_user env) s7 h8)) in
                        moved hash salt _ hashed (
                          subst
                            (λ b.
                              HasLeft req hash b s.db
                                (enroll env jwt secret bcrypt req hash is_first s8).1.db)
                            (first ∙ ap (λ db. length db.users == 0) db7)
                            (enroll-HasLeft env jwt secret bcrypt req hash is_first s.db s8 db8))

  -- A registration that reports success had every field, found the name and the address free, has
  -- added one user with the hash of the password, and one active account that belongs to the user,
  -- and returns a token that was issued for the user; the user has the system's privilege exactly
  -- if there was no user before.
  pub register-IsEnrolled :
      (s : Session) {resp : AuthResponse} {s' : Session}
      → register env jwt secret bcrypt req s ≡ (ok resp, s')
      → (lacks_field req ≡ false)
        × ((hash : String) × (salt : ℕ) × (bcrypt.generate salt req.password bcrypt_cost ≡ ok hash)
            × IsEnrolled env jwt secret bcrypt req hash (length s.db.users == 0) s.db s'.db resp)
  unfolding register raise_if gets attempt
  register-IsEnrolled s {resp} {s'} h = >>=_ok _ _ s h λ _ s1 e1 h1.
      >>=_ok _ _ s1 h1 λ found s2 e2 h2. >>=_ok _ _ s2 h2 λ _ s3 e3 h3.
        >>=_ok _ _ s3 h3 λ found' s4 e4 h4. >>=_ok _ _ s4 h4 λ _ s5 e5 h5.
          >>=_ok _ _ s5 h5 λ salt s6 e6 h6. >>=_ok _ _ s6 h6 λ hash s7 e7 h7.
            >>=_ok _ _ s7 h7 λ is_first s8 e8 h8.
              let db1 : s1.db ≡ s.db = sym (ap (λ x. x.1.db) e1) in
              let db2 : s2.db ≡ s.db =
                sym (ap (λ x. x.1.db) e2)
                ∙ (get_user_by_username_lem env req.username s1).0
                ∙ db1 in
              let db3 : s3.db ≡ s.db = sym (ap (λ x. x.1.db) e3) ∙ db2 in
              let db4 : s4.db ≡ s.db =
                sym (ap (λ x. x.1.db) e4) ∙ get_user_by_email_db env req.email s3 ∙ db3 in
              let db5 : s5.db ≡ s.db = sym (ap (λ x. x.1.db) e5) ∙ db4 in
              let db6 : s6.db ≡ s.db = sym (ap (λ x. x.1.db) e6) ∙ db5 in
              let hashed =
                wrapping_ok "bcrypt hash: " (lift (bcrypt.generate salt req.password bcrypt_cost))
                  s6 e7 in
              let db7 : s7.db ≡ s.db = sym (ap (λ x. x.1.db) hashed) ∙ db6 in
              let counted = wrapping_ok "first user check: " (is_first_user env) s7 e8 in
              let (reads, first) = is_first_user_lem env s7 in
              let db8 : s8.db ≡ s.db = sym (ap (λ x. x.1.db) counted) ∙ reads ∙ db7 in
              let checked = raise_if_ok (lacks_field req) _ s e1 in
              (
                checked.0,
                (
                  hash,
                  salt,
                  ap (λ x. x.0) hashed,
                  subst (λ b. IsEnrolled env jwt secret bcrypt req hash b s.db s'.db resp)
                      (first is_first (ap (λ x. x.0) counted) ∙ ap (λ db. length db.users == 0) db7)
                      (enroll_ok env jwt secret bcrypt req hash is_first s.db s8 db8 h8),
                ),
              )
