-- ===== src/Funding/Effect.antt =====
-- What `FundAccount` does to the tables.
use bank_system.Prelude.{ℕ, ◌≡◌, refl, sym, ap, ◌∙◌, true, false, [], ◌∷◌, none, some, arith}
use mathlib.Core.Path.{subst}
use bank_system.Prelude.Int.{ℤ}
use bank_system.Model.{
  Uuid, Time, Account, Transaction, TransactionStatus, pending, completed, LedgerEntry, credit,
  FundRequest, FundResponse,
}
use bank_system.External.{Result, ok, Env, Decimals}
use bank_system.Store.Db.{Db, has_entry, transaction_violation}
use bank_system.Store.Action.{
  Session, ◌>>=◌, wrapping, raise_if, gets, raise, pure, with_tx, begin, new_uuid,
}
use bank_system.Store.Queries.{is_active, get_account_by_user_id, any_row, active_accounts_of}
use bank_system.Store.Statements.{find_account, add_transaction, add_entry}
use bank_system.Store.Consistency.{book}
use bank_system.Store.Atomicity.{with_tx_elim, with_tx_ok}
use bank_system.Store.Keeps.{>>=_after}
use bank_system.Store.Inversion.{
  >>=_ok, wrapping_ok, raise_if_ok, get_account_for_update_ok, new_uuid_ok,
  update_transaction_status_ok, create_transaction_ok, insert_ledger_entry_ok, set_status_other,
  transaction_violation_fresh, ledger_violation_fresh,
}
use bank_system.Funding.{post_funding, fund_tx, fund_response, fund_account}

module _ (d : Decimals) (req : FundRequest d.Decimal) (system_account_id txn_id key : Uuid)
    (now : Time) where
  abbrev pub funding_transaction : TransactionStatus → Transaction ℤ
  funding_transaction status = record {
    id = txn_id;
    from_account_id = system_account_id;
    to_account_id = req.to_account_id;
    amount = d.to_numeric req.amount;
    status = status;
    idempotency_key = key;
    created_at = now;
    updated_at = now;
  }

  abbrev pub funding_entry : Uuid → LedgerEntry ℤ
  funding_entry id = record {
    id = id;
    account_id = req.to_account_id;
    transaction_id = txn_id;
    amount = d.to_numeric req.amount;
    entry_type = credit;
    created_at = now;
  }

-- `after` is `before` with the rows of one funding, which met every constraint.
pub record IsFunded (d : Decimals) (req : FundRequest d.Decimal) (system_account_id txn_id : Uuid)
    (before after : Db) : Type 0 where
  pub now : Time
  pub key : Uuid
  pub credit_id : Uuid
  pub rows :
      after
      ≡ book
          (funding_transaction d req system_account_id txn_id key now completed)
          (funding_entry d req system_account_id txn_id key now credit_id ∷ [])
          before
  pub insertable :
      transaction_violation before
        (funding_transaction d req system_account_id txn_id key now pending)
      ≡ none
  pub credit_insertable : has_entry credit_id before.ledger ≡ false

-- The account that receives the money exists and is active.
pub record HasTarget (id : Uuid) (before : Db) : Type 0 where
  pub target : Account
  pub found : find_account id before ≡ some target
  pub active : is_active target.status ≡ true

module _ (env : Env) (d : Decimals) (req : FundRequest d.Decimal)
    (system_account_id txn_id : Uuid) where
  post_funding-IsFunded :
      (s : Session) {s' : Session}
      → post_funding env d req system_account_id txn_id s ≡ (ok tt, s')
      → IsFunded d req system_account_id txn_id s.db s'.db
  unfolding post_funding
  post_funding-IsFunded s h = >>=_ok _ _ s h λ key s1 e1 h1. >>=_ok _ _ s1 h1 λ _ s2 e2 h2.
      >>=_ok _ _ s2 h2 λ credit_id s3 e3 h3. >>=_ok _ _ s3 h3 λ _ s4 e4 h4.
        let drawn = new_uuid_ok env s e1 in
        let created = create_transaction_ok env d _ s1 e2 in
        let drawn' = new_uuid_ok env s2 e3 in
        let credited = insert_ledger_entry_ok env d _ s3 (wrapping_ok _ _ s3 e4) in
        let updated = update_transaction_status_ok env _ _ s4 h4 in
        let pending_row : Transaction ℤ =
          funding_transaction d req system_account_id txn_id key s.clock pending in
        let entry : LedgerEntry ℤ =
          funding_entry d req system_account_id txn_id key s.clock credit_id in
        let clock : s3.clock ≡ s.clock = cc in
        let insertable : transaction_violation s.db pending_row ≡ none =
          rw (drawn.0, drawn.1) at created.0 in
        let db3 : s3.db ≡ add_transaction pending_row s.db =
          drawn'.0 ∙ (created.1 ∙ rw (drawn.0, drawn.1)) in
        let db4 : s4.db ≡ add_entry entry (add_transaction pending_row s.db) =
          credited.1 ∙ rw (clock, db3) in
        record {
          now = s.clock;
          key = key;
          credit_id = credit_id;
          rows =
              updated.1
              ∙ (rw (db4, credited.2, clock)
                  (rw
                    (set_status_other txn_id completed s.clock s.db.transactions pending_row
                      (transaction_violation_fresh _ _ insertable) refl)
                    refl));
          insertable = insertable;
          credit_insertable = rw db3 at (ledger_violation_fresh _ _ credited.0);
        }

  pub fund_tx-IsFunded :
      (s : Session) {s' : Session}
      → fund_tx env d req system_account_id txn_id s ≡ (ok tt, s')
      → IsFunded d req system_account_id txn_id s.db s'.db × HasTarget req.to_account_id s.db
  unfolding fund_tx
  fund_tx-IsFunded s {s'} h = >>=_ok _ _ s h λ target s1 e1 h1. >>=_ok _ _ s1 h1 λ _ s2 e2 h2.
      let locked = get_account_for_update_ok env _ s e1 in
      let active = raise_if_ok _ _ s1 e2 in
      let db2 : s2.db ≡ s.db = cc in
      let funded : IsFunded d req system_account_id txn_id s2.db s'.db =
        post_funding-IsFunded s2 h2 in
      (
        subst (λ db. IsFunded d req system_account_id txn_id db s'.db) db2 funded,
        record { target = target; found = locked.0; active = ground arith },
      )

module _ (env : Env) where
  get_account_by_user_id_db :
      (user_id : Uuid) (s : Session)
      → (wrapping "system account lookup: " (get_account_by_user_id env user_id) s).1.db ≡ s.db
  unfolding get_account_by_user_id wrapping ◌>>=◌ gets pure raise
  get_account_by_user_id_db user_id s = ground arith

module _ (env : Env) (d : Decimals) (req : FundRequest d.Decimal) (system_user_id : Uuid) where
  -- What holds of the tables before, and of every tables with the rows of the funding added, holds
  -- after `FundAccount`, whatever it returns.
  pub fund_account_elim :
      (P : Db → Type 0) (s : Session)
      → P s.db
      → ((system_account_id txn_id : Uuid) (after : Db)
          → IsFunded d req system_account_id txn_id s.db after
          → P after)
      → P (fund_account env d req system_user_id s).1.db
  unfolding fund_account raise_if new_uuid pure
  fund_account_elim P s kept moved =
      >>=_after (λ s. P s.db) (raise_if _ _) _ s (λ e s1 h. subst (λ x. P x.1.db) h kept)
        λ _ s1 h1.
          let db1 : s1.db ≡ s.db = sym (ap (λ x. x.1.db) h1) in
          >>=_after (λ s. P s.db) (new_uuid env) _ s1
            (λ e s2 h. rw (sym (ap (λ x. x.1.db) h) ∙ db1) kept)
            λ txn_id s2 h2.
              let db2 : s2.db ≡ s.db = sym (ap (λ x. x.1.db) h2) ∙ db1 in
              >>=_after (λ s. P s.db)
                (wrapping "system account lookup: " (get_account_by_user_id env system_user_id)) _
                s2 (λ e s3 h. rw (looked_up s2 h ∙ db2) kept)
                λ system s3 h3.
                  let db3 : s3.db ≡ s.db = looked_up s2 h3 ∙ db2 in
                  let done : P (with_tx env (fund_tx env d req system.id txn_id) s3).1.db =
                    with_tx_elim P env (fund_tx env d req system.id txn_id) s3 (rw db3 kept)
                      (λ a s4 ran. moved system.id txn_id s4.db (
                        subst (λ db. IsFunded d req system.id txn_id db s4.db) db3
                          (fund_tx-IsFunded env d req system.id txn_id (begin env s3) ran).0)) in
                  >>=_after (λ s. P s.db) (with_tx env (fund_tx env d req system.id txn_id)) _ s3
                    (λ e s4 h. subst (λ x. P x.1.db) h done) λ a s4 h. subst (λ x. P x.1.db) h done
    where
      looked_up :
          (s : Session) {x : Result Account} {s' : Session}
          → wrapping "system account lookup: " (get_account_by_user_id env system_user_id) s
            ≡ (x, s')
          → s'.db ≡ s.db
      looked_up s h = sym (ap (λ x. x.1.db) h) ∙ get_account_by_user_id_db env system_user_id s

  get_account_by_user_id_ok :
      (s : Session) {a : Account} {s' : Session}
      → get_account_by_user_id env system_user_id s ≡ (ok a, s')
      → (any_row (env.pick s.calls) (active_accounts_of system_user_id s.db) ≡ some a)
        × (s'.db ≡ s.db)
  unfolding get_account_by_user_id wrapping ◌>>=◌ gets pure raise
  get_account_by_user_id_ok s h = ground arith

  pure_ok :
      {A : Type 0} (a : A) (s : Session) {b : A} {s' : Session} → pure a s ≡ (ok b, s') → b ≡ a
  unfolding pure
  pure_ok a s h = ground arith

  -- What a funding that reports success has found and done.
  pub record IsMinted (before after : Db) (resp : FundResponse d.Decimal) : Type 0 where
    pub choice : ℕ
    pub system : Account
    pub system_picked : any_row choice (active_accounts_of system_user_id before) ≡ some system
    pub positive : d.is_positive req.amount ≡ true
    pub target : HasTarget req.to_account_id before
    pub funded : IsFunded d req system.id resp.transaction_id before after
    pub response : resp ≡ fund_response env d req resp.transaction_id

  -- A funding that reports success has added one transaction, from an active account of the user
  -- who asked to the account of the request, which is active, and one credit; the response names
  -- that transaction.
  pub fund_account-IsMinted :
      (s : Session) {resp : FundResponse d.Decimal} {s' : Session}
      → fund_account env d req system_user_id s ≡ (ok resp, s')
      → IsMinted s.db s'.db resp
  unfolding fund_account pure
  fund_account-IsMinted s {resp} {s'} h = >>=_ok _ _ s h λ _ s1 e1 h1.
      >>=_ok _ _ s1 h1 λ txn_id s2 e2 h2. >>=_ok _ _ s2 h2 λ system s3 e3 h3.
        >>=_ok _ _ s3 h3 λ _ s4 e4 h4.
          let checked = raise_if_ok _ _ s e1 in
          let drawn = new_uuid_ok env s1 e2 in
          let picked = get_account_by_user_id_ok s2 (wrapping_ok _ _ s2 e3) in
          let (s5, ran, same, _) = with_tx_ok env _ s3 (ap (λ x. x.0) e4) in
          let (funded, target) = fund_tx-IsFunded env d req system.id txn_id _ ran in
          let db2 : s2.db ≡ s.db = cc in
          let db3 : s3.db ≡ s.db = cc in
          let answered : resp ≡ fund_response env d req txn_id = pure_ok _ _ h4 in
          let db' : s'.db ≡ s5.db =
            (ap (λ x. x.1.db) (sym h4) ∙ ap (λ x. x.1.db) (sym e4)) ∙ same in
          rw (answered, db')
            (record {
              choice = env.pick s2.calls;
              system = system;
              system_picked = rw db2 at picked.0;
              positive = ground arith;
              target = subst (HasTarget req.to_account_id) db3 target;
              funded = subst (λ db. IsFunded d req system.id txn_id db s5.db) db3 funded;
              response = refl;
            })
