-- ===== src/Transfer/Verdict/Refused.antt =====
-- The verdict against a transfer is what its transaction returns.
use bank_system.Prelude.{
  ◌≡◌, refl, sym, ap, ◌∙◌, ◌⊎◌, inl, inr, Bool, true, not, Option, none, some, arith, Option-cases,
}
use bank_system.Errs.{Sentinel, sentinel, wrap, driver, Error}
use bank_system.Model.{Uuid, Account, Transaction, pending, TransferRequest}
use bank_system.External.{Result, ok, err, Constraint, Env, Decimals}
use bank_system.Store.Db.{Db, transaction_violation}
use bank_system.Store.Action.{
  Session, Action, ◌>>=◌, wrapping, raise_if, pure, raise, gets, lock, statement, modify, enforce,
}
use bank_system.Store.Statements.{
  find_account, get_account_for_update, lock_row, create_transaction, insert_transaction_row,
  transaction_row,
}
use bank_system.Store.Runs.{
  IsCalm, get_account_for_update_run, get_balance_run, wrapping_run, raise_if_run,
}
use bank_system.Transfer.{lock_order, transfer_roles, transfer_tx, post_transfer}
use bank_system.Transfer.Effect.{posted_transaction}
use bank_system.Transfer.Locks.{lock_order_elim}
use bank_system.Transfer.Success.{new_transaction}
use bank_system.Transfer.Verdict.{
  some_same, first_refusal-some, by_sender, by_receiver, by_balance, by_rest, by_rows, row,
  by_accounts, refusal_of, refusal, untimed,
}

module _ {A B : Type 0} (m : Action A) (f : A → Action B) (s : Session) where
  -- The rest decides what is returned, or the first error is.
  >>=_next :
      {a : A} {s1 : Session} {x : Result B}
      → m s ≡ (ok a, s1)
      → (f a s1).0 ≡ x
      → ((m >>= f) s).0 ≡ x
  unfolding ◌>>=◌
  >>=_next h k =
      ap (λ y. (elim y.0 as (λ _. Result B × Session) [ ok a ↦ f a y.1 | err e ↦ (err e, y.1) ]).0)
        h
      ∙ k

  >>=_stop : {e : Error} → (m s).0 ≡ err e → ((m >>= f) s).0 ≡ err e
  unfolding ◌>>=◌
  >>=_stop h = ground arith

module _ (env : Env) (calm : IsCalm env) (d : Decimals) (req : TransferRequest d.Decimal) (db : Db)
    (txn_id : Uuid) where
  missing_account :
      (id : Uuid) (s : Session)
      → find_account id s.db ≡ none
      → (get_account_for_update env id s).0 ≡ err (sentinel Sentinel.account_not_found)
  unfolding get_account_for_update lock_row statement wrapping ◌>>=◌ gets lock pure raise
  missing_account id s h = let f = calm.faultless s.calls in ground arith

  create_transaction_refused :
      (t : Transaction d.Decimal) (s : Session) (c : Constraint)
      → transaction_violation s.db (transaction_row env d t s.clock) ≡ some c
      → (create_transaction env d t s).0
        ≡ err (wrap "create transaction: " (driver (env.violation c)))
  unfolding create_transaction insert_transaction_row statement wrapping ◌>>=◌ gets modify enforce
  create_transaction_refused t s c h = let f = calm.faultless s.calls in ground arith

  post_transfer_refused :
      (s : Session) (c : Constraint)
      → s.db ≡ db
      → transaction_violation db (row env d req db txn_id) ≡ some c
      → (post_transfer env d req txn_id s).0
        ≡ err (wrap "create transaction: " (driver (env.violation c)))
  unfolding post_transfer
  post_transfer_refused s c same h = >>=_stop _ _ s (
      create_transaction_refused (new_transaction d req txn_id) s c (
        ap (λ x. transaction_violation x (posted_transaction d req txn_id s.clock pending)) same
        ∙ untimed d req db txn_id s.clock 0
        ∙ h))

  raise_if_err : (b : Bool) (e : Error) (s : Session) → b ≡ true → (raise_if b e s).0 ≡ err e
  unfolding raise_if
  raise_if_err b e s h = rw h refl

  by_rows_refused :
      (s : Session) (c : Option Constraint) (e : Error)
      → s.db ≡ db
      → transaction_violation db (row env d req db txn_id) ≡ c
      → by_rows env d req db c ≡ some e
      → (post_transfer env d req txn_id s).0 ≡ err e
  by_rows_refused s none e same found h = absurd (cc)
  by_rows_refused s (some c) e same found h =
      post_transfer_refused s c same found ∙ ap err (some_same h)

  -- A verdict against it is what the second part of the function returns.
  transfer_roles_refused :
      (s : Session) (a b : Account) (e : Error)
      → s.db ≡ db
      → find_account req.from_account_id db ≡ some a
      → find_account req.to_account_id db ≡ some b
      → by_accounts env d req db txn_id a b ≡ some e
      → (transfer_roles env d req txn_id s).0 ≡ err e
  unfolding transfer_roles
  transfer_roles_refused s a b e same a_found b_found h =
      let sent =
        get_account_for_update_run env calm req.from_account_id s a
          (ap (find_account req.from_account_id) same ∙ a_found) in
      let s1 = sent.after in
      let db1 = sent.db ∙ same in
      let received =
        get_account_for_update_run env calm req.to_account_id s1 b
          (ap (find_account req.to_account_id) db1 ∙ b_found) in
      let s2 = received.after in
      let db2 = received.db ∙ db1 in
      let summed = get_balance_run env calm d req.from_account_id s2 in
      let s3 = summed.after in
      >>=_next _ _ s (wrapping_run _ _ s sent.runs) (
        >>=_next _ _ s1 (wrapping_run _ _ s1 received.runs) (elim (first_refusal-some _ _ _ _ e h) [
          | by_sender idle is_e ↦ >>=_stop _ _ s2 (raise_if_err _ _ s2 (ap not idle) ∙ ap err is_e)
          | by_receiver sends idle is_e ↦
              >>=_next _ _ s2 (raise_if_run _ _ s2 (ap not sends))
                (>>=_stop _ _ s2 (raise_if_err _ _ s2 (ap not idle) ∙ ap err is_e))
          | by_balance sends receives short is_e ↦
              >>=_next _ _ s2 (raise_if_run _ _ s2 (ap not sends)) (
                >>=_next _ _ s2 (raise_if_run _ _ s2 (ap not receives)) (
                  >>=_next _ _ s2 (wrapping_run _ _ s2 summed.runs)
                    (>>=_stop _ _ s3 (raise_if_err _ _ s3 (rw db2 short) ∙ ap err is_e))))
          | by_rest sends receives covered is_e ↦
              >>=_next _ _ s2 (raise_if_run _ _ s2 (ap not sends)) (
                >>=_next _ _ s2 (raise_if_run _ _ s2 (ap not receives)) (
                  >>=_next _ _ s2 (wrapping_run _ _ s2 summed.runs) (
                    >>=_next _ _ s3 (raise_if_run _ _ s3 (rw db2 covered))
                      (by_rows_refused s3 _ e (summed.db ∙ db2) refl is_e))))
        ]))

  -- An account that is not there fails one of the two locks.
  locks_refused :
      (s : Session)
      → s.db ≡ db
      → (let (one, other) = lock_order env req.from_account_id req.to_account_id in
          (find_account one db ≡ none) ⊎ (find_account other db ≡ none))
      → (transfer_tx env d req txn_id s).0 ≡ err (sentinel Sentinel.account_not_found)
  unfolding transfer_tx
  locks_refused s same lost =
      elim (Option-cases
        (find_account (lock_order env req.from_account_id req.to_account_id).0 db)) [
          | inl lost_first ↦
              >>=_stop _ _ s (missing_account _ s (ap (find_account _) same ∙ lost_first))
          | inr (a, found) ↦
              let first =
                get_account_for_update_run env calm _ s a (ap (find_account _) same ∙ found) in
              let db1 = first.db ∙ same in
              >>=_next _ _ s first.runs (
                >>=_stop _ _ first.after (
                  missing_account _ first.after
                    (ap (find_account _) db1 ∙ second_lost (sym found) lost)))
        ]
    where
      second_lost :
          {a : Account} {o o' : Option Account} → some a ≡ o → (o ≡ none) ⊎ (o' ≡ none) → o' ≡ none
      second_lost found (inl lost) = absurd (cc)
      second_lost found (inr lost) = lost

  abbrev IsLost : Uuid × Uuid → Type 0
  IsLost (one, other) = (find_account one db ≡ none) ⊎ (find_account other db ≡ none)

  IsLost-in_order :
      IsLost (req.from_account_id, req.to_account_id)
      → IsLost (lock_order env req.from_account_id req.to_account_id)
  IsLost-in_order lost =
      lock_order_elim env IsLost req.from_account_id req.to_account_id lost (swap lost)
    where
      swap : {A B : Type 0} → A ⊎ B → B ⊎ A
      swap (inl a) = inr a
      swap (inr b) = inl b

  abbrev AreFound : Uuid × Uuid → Type 0
  AreFound (one, other) =
      ((a : Account) × (find_account one db ≡ some a))
      × ((b : Account) × (find_account other db ≡ some b))

  found_refused :
      (s : Session) (a b : Account) (e : Error)
      → s.db ≡ db
      → find_account req.from_account_id db ≡ some a
      → find_account req.to_account_id db ≡ some b
      → by_accounts env d req db txn_id a b ≡ some e
      → (transfer_tx env d req txn_id s).0 ≡ err e
  unfolding transfer_tx
  found_refused s a b e same a_found b_found h =
      let ((x, x_found), (y, y_found)) = found_in_order in
      let first = get_account_for_update_run env calm _ s x (ap (find_account _) same ∙ x_found) in
      let db1 = first.db ∙ same in
      let second =
        get_account_for_update_run env calm _ first.after y (ap (find_account _) db1 ∙ y_found) in
      >>=_next _ _ s first.runs (
        >>=_next _ _ first.after second.runs
          (transfer_roles_refused second.after a b e (second.db ∙ db1) a_found b_found h))
    where
      found_in_order : AreFound (lock_order env req.from_account_id req.to_account_id)
      found_in_order =
          lock_order_elim env AreFound req.from_account_id req.to_account_id
            ((a, a_found), (b, b_found)) ((b, b_found), (a, a_found))

  refused :
      (s : Session) (fa fb : Option Account) (e : Error)
      → s.db ≡ db
      → find_account req.from_account_id db ≡ fa
      → find_account req.to_account_id db ≡ fb
      → refusal_of env d req db txn_id fa fb ≡ some e
      → (transfer_tx env d req txn_id s).0 ≡ err e
  refused s (some a) (some b) e same ea eb h = found_refused s a b e same ea eb h
  refused s (some a) none e same ea eb h =
      locks_refused s same (IsLost-in_order (inr eb)) ∙ ap err (some_same h)
  refused s none fb e same ea eb h =
      locks_refused s same (IsLost-in_order (inl ea)) ∙ ap err (some_same h)

  -- Where no call fails, the transaction of a transfer returns the verdict against it.
  pub transfer_tx_refused :
      (s : Session) (e : Error)
      → s.db ≡ db
      → refusal env d req db txn_id ≡ some e
      → (transfer_tx env d req txn_id s).0 ≡ err e
  transfer_tx_refused s e same h = refused s _ _ e same refl refl h
