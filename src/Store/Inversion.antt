-- ===== src/Store/Inversion.antt =====
-- What a step that succeeded has done to the session, one lemma for each action.
use bank_system.Prelude.{List, [], ◌∷◌, ◌++◌, ◌≡◌, Bool, true, false, none, some, arith, refl}
use bank_system.Errs.{Error}
use bank_system.Model.{Time, Uuid, Account, Transaction, TransactionStatus, LedgerEntry}
use bank_system.External.{Result, ok, err, Env, Decimals}
use bank_system.Prelude.Int.{ℤ}
use bank_system.Store.Db.{
  Db, has_entry, has_transaction, transaction_violation, ledger_violation, balance_of, set_status,
}
use bank_system.Store.Action.{
  Session, Action, pure, raise, gets, ◌>>=◌, raise_if, modify, wrapping, lock, add_lock, statement,
  enforce, new_uuid,
}
use bank_system.Store.Statements.{
  find_account, lock_row, add_transaction, add_entry, get_account_for_update, get_balance,
  update_transaction_status, transaction_row, entry_row, insert_transaction_row, insert_ledger_row,
  create_transaction, insert_ledger_entry,
}

elim_ok {ℓ} :
    {P : Type ℓ} {A B : Type 0} (p : Result A × Session) (f : A → Action B) {b : B} {s' : Session}
    → (elim p.0 [ ok a ↦ f a p.1 | err e ↦ (err e, p.1) ]) ≡ (ok b, s')
    → ((a : A) (s1 : Session) → p ≡ (ok a, s1) → f a s1 ≡ (ok b, s') → P)
    → P
elim_ok (ok a, s1) f h k = k a s1 refl h
elim_ok (err e, s1) f h k = absurd (cc)

-- A bind that succeeded: its first action has, and then the rest from there.
pub >>=_ok {ℓ} :
    {P : Type ℓ} {A B : Type 0} (m : Action A) (f : A → Action B) (s : Session) {b : B}
    {s' : Session}
    → (m >>= f) s ≡ (ok b, s')
    → ((a : A) (s1 : Session) → m s ≡ (ok a, s1) → f a s1 ≡ (ok b, s') → P)
    → P
unfolding ◌>>=◌
>>=_ok m f s h k = elim_ok (m s) f h k

pub wrapping_ok :
    {A : Type 0} (p : _) (m : Action A) (s : Session) {a : A} {s' : Session}
    → wrapping p m s ≡ (ok a, s')
    → m s ≡ (ok a, s')
unfolding wrapping
wrapping_ok p m s h = ground arith

pub raise_if_ok :
    (b : Bool) (e : Error) (s : Session) {s' : Session}
    → raise_if b e s ≡ (ok tt, s')
    → (b ≡ false) × (s' ≡ s)
unfolding raise_if
raise_if_ok b e s h = ground arith

module _ (env : Env) where
  pub get_account_for_update_ok :
      (id : Uuid) (s : Session) {a : Account} {s' : Session}
      → get_account_for_update env id s ≡ (ok a, s')
      → (find_account id s.db ≡ some a)
        × (s'.db ≡ s.db)
        × (s'.clock ≡ s.clock)
        × (s'.locks ≡ add_lock id s.locks)
  unfolding get_account_for_update lock_row statement wrapping ◌>>=◌ gets lock pure raise
  get_account_for_update_ok id s h = ground arith

  pub new_uuid_ok :
      (s : Session) {id : Uuid} {s' : Session}
      → new_uuid env s ≡ (ok id, s')
      → (s'.db ≡ s.db) × (s'.clock ≡ s.clock) × (s'.locks ≡ s.locks)
  unfolding new_uuid
  new_uuid_ok s h = ground arith

  pub update_transaction_status_ok :
      (id : Uuid) (status : TransactionStatus) (s : Session) {s' : Session}
      → update_transaction_status env id status s ≡ (ok tt, s')
      → (has_transaction id s.db.transactions ≡ true)
        × (s'.db ≡ record s.db { transactions = set_status id status s.clock s.db.transactions })
        × (s'.locks ≡ s.locks)
  unfolding update_transaction_status statement wrapping ◌>>=◌ gets modify raise_if
  update_transaction_status_ok id status s h = ground arith

module _ (env : Env) (d : Decimals) where
  pub get_balance_ok :
      (id : Uuid) (s : Session) {b : d.Decimal} {s' : Session}
      → get_balance env d id s ≡ (ok b, s')
      → (b ≡ d.from_numeric (balance_of s.db.ledger id))
        × (s'.db ≡ s.db)
        × (s'.clock ≡ s.clock)
        × (s'.locks ≡ s.locks)
  unfolding get_balance statement wrapping ◌>>=◌ gets
  get_balance_ok id s h = ground arith

  pub create_transaction_ok :
      (t : Transaction d.Decimal) (s : Session) {s' : Session}
      → create_transaction env d t s ≡ (ok tt, s')
      → (transaction_violation s.db (transaction_row env d t s.clock) ≡ none)
        × (s'.db ≡ add_transaction (transaction_row env d t s.clock) s.db)
        × (s'.clock ≡ s.clock)
        × (s'.locks ≡ s.locks)
  unfolding create_transaction insert_transaction_row statement wrapping ◌>>=◌ gets modify enforce
  create_transaction_ok t s h = ground arith

  pub insert_ledger_entry_ok :
      (e : LedgerEntry d.Decimal) (s : Session) {s' : Session}
      → insert_ledger_entry env d e s ≡ (ok tt, s')
      → (ledger_violation s.db (entry_row env d e s.clock) ≡ none)
        × (s'.db ≡ add_entry (entry_row env d e s.clock) s.db)
        × (s'.clock ≡ s.clock)
        × (s'.locks ≡ s.locks)
  unfolding insert_ledger_entry insert_ledger_row statement wrapping ◌>>=◌ gets modify enforce
  insert_ledger_entry_ok e s h = ground arith

pub set_status_other :
    (id : Uuid) (status : TransactionStatus) (now : Time) (l : List (Transaction ℤ))
    (t : Transaction ℤ)
    → has_transaction id l ≡ false
    → t.id ≡ id
    → set_status id status now (l ++ t ∷ [])
      ≡ l ++ (record t { status = status; updated_at = now }) ∷ []
unfolding set_status
set_status_other id status now [] t h e = ground arith
set_status_other id status now (u ∷ l) t h e = ground (arith, set_status_other id status now l t)

pub transaction_violation_fresh :
    (db : Db) (t : Transaction ℤ)
    → transaction_violation db t ≡ none
    → has_transaction t.id db.transactions ≡ false
unfolding transaction_violation
transaction_violation_fresh db t h = ground arith

pub ledger_violation_fresh :
    (db : Db) (e : LedgerEntry ℤ) → ledger_violation db e ≡ none → has_entry e.id db.ledger ≡ false
unfolding ledger_violation
ledger_violation_fresh db e h = ground arith
