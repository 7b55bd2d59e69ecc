-- ===== src/Store/Runs.antt =====
-- Where the server answers every call, each action succeeds whenever its own conditions hold.
use bank_system.Prelude.{String, ◌+◌, ◌≡◌, refl, ap, ◌∙◌, Bool, true, false, ℕ, none, some, arith}
use bank_system.Errs.{Error}
use bank_system.Model.{Uuid, Account, Transaction, TransactionStatus, LedgerEntry}
use bank_system.External.{Result, ok, err, committed, Env, Decimals}
use bank_system.Store.Db.{Db, has_transaction, transaction_violation, ledger_violation, balance_of}
use bank_system.Store.Action.{
  Session, Action, pure, raise, gets, ◌>>=◌, raise_if, modify, wrapping, lock, statement, enforce,
  new_uuid, begin, with_tx,
}
use bank_system.Store.Statements.{
  find_account, lock_row, add_transaction, add_entry, get_account_for_update, get_balance,
  update_transaction_status, transaction_row, entry_row, insert_transaction_row, insert_ledger_row,
  create_transaction, insert_ledger_entry,
}

-- No call fails, and every COMMIT goes through.
pub record IsCalm (env : Env) : Type 0 where
  pub faultless : (n : ℕ) → env.fault n ≡ none
  pub commits : (n : ℕ) → env.commit n ≡ committed

pub >>=_run :
    {A B : Type 0} (m : Action A) (f : A → Action B) (s : Session) {a : A} {s1 : Session}
    {p : Result B × Session}
    → m s ≡ (ok a, s1)
    → f a s1 ≡ p
    → (m >>= f) s ≡ p
unfolding ◌>>=◌
>>=_run {B} m f s h k =
    ap (λ x. elim x.0 as (λ _. Result B × Session) [ ok a ↦ f a x.1 | err e ↦ (err e, x.1) ]) h ∙ k

pub >>=_ok :
    {A B : Type 0} (m : Action A) (f : A → Action B) (s : Session) {a : A} {s1 : Session} {b : B}
    → m s ≡ (ok a, s1)
    → (f a s1).0 ≡ ok b
    → ((m >>= f) s).0 ≡ ok b
>>=_ok m f s h k = ap (λ x. x.0) (>>=_run m f s h refl) ∙ k

pub wrapping_run :
    {A : Type 0} (p : String) (m : Action A) (s : Session) {a : A} {s1 : Session}
    → m s ≡ (ok a, s1)
    → wrapping p m s ≡ (ok a, s1)
unfolding wrapping
wrapping_run p m s h = rw (h, wrapping) refl

pub raise_if_run : (b : Bool) (e : Error) (s : Session) → b ≡ false → raise_if b e s ≡ (ok tt, s)
unfolding raise_if
raise_if_run b e s h = rw h refl

-- A step that succeeds, with what it leaves of the tables, the clock and the count of calls.
pub record Steps {A : Type 0} (p : Result A × Session) (a : A) (s : Session) (tables : Db)
    : Type 0 where
  pub after : Session
  pub runs : p ≡ (ok a, after)
  pub db : after.db ≡ tables
  pub clock : after.clock ≡ s.clock
  pub calls : after.calls ≡ s.calls + 1

module _ (env : Env) (calm : IsCalm env) where
  pub get_account_for_update_run :
      (id : Uuid) (s : Session) (a : Account)
      → find_account id s.db ≡ some a
      → Steps (get_account_for_update env id s) a s s.db
  unfolding get_account_for_update lock_row statement wrapping ◌>>=◌ gets lock pure raise
  get_account_for_update_run id s a h =
      let f = calm.faultless s.calls in
      record {
        after = (get_account_for_update env id s).1;
        runs = ground arith;
        db = ground arith;
        clock = ground arith;
        calls = ground arith;
      }

  pub new_uuid_run : (s : Session) → Steps (new_uuid env s) (env.new_uuid s.calls) s s.db
  unfolding new_uuid
  new_uuid_run s = record {
    after = (new_uuid env s).1;
    runs = refl;
    db = refl;
    clock = refl;
    calls = refl;
  }

  pub update_transaction_status_run :
      (id : Uuid) (status : TransactionStatus) (s : Session)
      → has_transaction id s.db.transactions ≡ true
      → (update_transaction_status env id status s).0 ≡ ok tt
  unfolding update_transaction_status statement wrapping ◌>>=◌ gets modify raise_if
  update_transaction_status_run id status s h = let f = calm.faultless s.calls in ground arith

  pub with_tx_run :
      {A : Type 0} (fn : Action A) (s : Session) {a : A}
      → (fn (begin env s)).0 ≡ ok a
      → (with_tx env fn s).0 ≡ ok a
  unfolding with_tx
  with_tx_run fn s h =
      let f = calm.faultless s.calls in
      let c = calm.commits (fn (begin env s)).1.calls in ground arith

  module _ (d : Decimals) where
    pub get_balance_run :
        (id : Uuid) (s : Session)
        → Steps (get_balance env d id s) (d.from_numeric (balance_of s.db.ledger id)) s s.db
    unfolding get_balance statement wrapping ◌>>=◌ gets
    get_balance_run id s =
        let f = calm.faultless s.calls in
        record {
          after = (get_balance env d id s).1;
          runs = ground arith;
          db = ground arith;
          clock = ground arith;
          calls = ground arith;
        }

    pub create_transaction_run :
        (t : Transaction d.Decimal) (s : Session)
        → transaction_violation s.db (transaction_row env d t s.clock) ≡ none
        → Steps
            (create_transaction env d t s)
            tt
            s
            (add_transaction (transaction_row env d t s.clock) s.db)
    unfolding create_transaction insert_transaction_row statement wrapping ◌>>=◌ gets modify enforce
    create_transaction_run t s h =
        let f = calm.faultless s.calls in
        record {
          after = (create_transaction env d t s).1;
          runs = ground arith;
          db = ground arith;
          clock = ground arith;
          calls = ground arith;
        }

    pub insert_ledger_entry_run :
        (e : LedgerEntry d.Decimal) (s : Session)
        → ledger_violation s.db (entry_row env d e s.clock) ≡ none
        → Steps (insert_ledger_entry env d e s) tt s (add_entry (entry_row env d e s.clock) s.db)
    unfolding insert_ledger_entry insert_ledger_row statement wrapping ◌>>=◌ gets modify enforce
    insert_ledger_entry_run e s h =
        let f = calm.faultless s.calls in
        record {
          after = (insert_ledger_entry env d e s).1;
          runs = ground arith;
          db = ground arith;
          clock = ground arith;
          calls = ground arith;
        }
