-- ===== src/Transfer/Success.antt =====
-- `TransferFunds` carries out every legitimate transfer, where no call of the outside fails.
use bank_system.Prelude.{
  ℕ, ◌+◌, Bool, true, false, ◌≡◌, ◌≢◌, refl, sym, ap, ◌∙◌, some, arith, not, if◌then◌else◌, str_gtb,
  String,
}
use bank_system.Model.{
  Uuid, Account, Transaction, LedgerEntry, pending, completed, EntryType, credit, debit,
  TransferRequest,
}
use bank_system.External.{Result, ok, err, Env, Decimals, Redis}
use bank_system.Store.Db.{Db, has_account, has_transaction}
use bank_system.Store.Action.{Session, begin, with_tx, new_uuid}
use bank_system.Store.Statements.{find_account, add_transaction, add_entry}
use bank_system.Store.Runs.{
  IsCalm, >>=_ok, wrapping_run, raise_if_run, get_account_for_update_run, new_uuid_run,
  update_transaction_status_run, with_tx_run, get_balance_run, create_transaction_run,
  insert_ledger_entry_run,
}
use bank_system.Transfer.{
  World, transfer_response, lock_order, post_transfer, transfer_roles, transfer_tx,
  idempotency_key_of, idempotency_ttl, finish, run_claimed, transfer_funds,
}
use bank_system.Transfer.Effect.{posted_transaction, posted_entry}
use bank_system.Transfer.Idempotency.{transfer_funds-valid}
use bank_system.Transfer.Allowed.{
  IsFresh, IsAllowed, has_account_of_found, transaction_insertable, entry_insertable,
  has_transaction-snoc, has_entry-snoc,
}

not_next : (m n : ℕ) → n ≡ m + 1 → m ≢ n
not_next m n h e = omega arith

module _ (d : Decimals) (req : TransferRequest d.Decimal) (txn_id : Uuid) where
  abbrev pub new_transaction : Transaction d.Decimal
  new_transaction = record {
    id = txn_id;
    from_account_id = req.from_account_id;
    to_account_id = req.to_account_id;
    amount = req.amount;
    status = pending;
    idempotency_key = req.idempotency_key;
    created_at = 0;
    updated_at = 0;
  }

  abbrev new_entry : Uuid → Uuid → EntryType → LedgerEntry d.Decimal
  new_entry id account_id entry_type = record {
    id = id;
    account_id = account_id;
    transaction_id = txn_id;
    amount = req.amount;
    entry_type = entry_type;
    created_at = 0;
  }

module _ (env : Env) (calm : IsCalm env) (d : Decimals) (req : TransferRequest d.Decimal)
    (txn_id : Uuid) (base : Db) (fresh : IsFresh env base) (allowed : IsAllowed d req base)
    (fresh_id : has_transaction txn_id base.transactions ≡ false) where
  from_known : has_account req.from_account_id base.accounts ≡ true
  from_known = has_account_of_found _ base _ allowed.sender_found

  to_known : has_account req.to_account_id base.accounts ≡ true
  to_known = has_account_of_found _ base _ allowed.receiver_found

  post_transfer_run : (s : Session) → s.db ≡ base → (post_transfer env d req txn_id s).0 ≡ ok tt
  unfolding post_transfer
  post_transfer_run s same =
      let row = posted_transaction d req txn_id s.clock pending in
      let created = create_transaction_run env calm d (new_transaction d req txn_id) s (
        rw same (
          transaction_insertable base row allowed.fits allowed.positive allowed.differ fresh_id
            allowed.fresh_key from_known to_known)) in
      let s1 = created.after in
      let db1 = created.db ∙ ap (add_transaction row) same in
      let drawn = new_uuid_run env calm s1 in
      let s2 = drawn.after in
      let drawn' = new_uuid_run env calm s2 in
      let s3 = drawn'.after in
      let db3 = drawn'.db ∙ drawn.db ∙ db1 in
      let debit_row =
        posted_entry d req txn_id s3.clock (env.new_uuid s1.calls) req.from_account_id debit in
      let debited =
        insert_ledger_entry_run env calm d
          (new_entry d req txn_id (env.new_uuid s1.calls) req.from_account_id debit) s3
          (rw db3 (
            entry_insertable (add_transaction row base) debit_row allowed.fits allowed.positive
              (fresh.entry_ids _) from_known (has_transaction-snoc _ row))) in
      let s4 = debited.after in
      let db4 = debited.db ∙ ap (add_entry debit_row) db3 in
      let credit_row =
        posted_entry d req txn_id s4.clock (env.new_uuid s2.calls) req.to_account_id credit in
      let credited =
        insert_ledger_entry_run env calm d
          (new_entry d req txn_id (env.new_uuid s2.calls) req.to_account_id credit) s4
          (rw db4 (
            entry_insertable (add_entry debit_row (add_transaction row base)) credit_row
              allowed.fits allowed.positive
              (has_entry-snoc _ debit_row _ (fresh.entry_ids _)
                (fresh.distinct _ _ (not_next _ _ drawn.calls)))
              to_known (has_transaction-snoc _ row))) in
      let s5 = credited.after in
      let db5 = credited.db ∙ ap (add_entry credit_row) db4 in
      >>=_ok _ _ s created.runs (
        >>=_ok _ _ s1 drawn.runs (
          >>=_ok _ _ s2 drawn'.runs (
            >>=_ok _ _ s3 (wrapping_run _ _ s3 debited.runs) (
              >>=_ok _ _ s4 (wrapping_run _ _ s4 credited.runs) (
                update_transaction_status_run env calm txn_id completed s5
                  (rw db5 (has_transaction-snoc _ row)))))))

  transfer_roles_run : (s : Session) → s.db ≡ base → (transfer_roles env d req txn_id s).0 ≡ ok tt
  unfolding transfer_roles
  transfer_roles_run s same =
      let sent =
        get_account_for_update_run env calm req.from_account_id s allowed.sender
          (ap (find_account req.from_account_id) same ∙ allowed.sender_found) in
      let s1 = sent.after in
      let db1 = sent.db ∙ same in
      let received =
        get_account_for_update_run env calm req.to_account_id s1 allowed.receiver
          (ap (find_account req.to_account_id) db1 ∙ allowed.receiver_found) in
      let s2 = received.after in
      let db2 = received.db ∙ db1 in
      let summed = get_balance_run env calm d req.from_account_id s2 in
      let s3 = summed.after in
      >>=_ok _ _ s (wrapping_run _ _ s sent.runs) (
        >>=_ok _ _ s1 (wrapping_run _ _ s1 received.runs) (
          >>=_ok _ _ s2 (raise_if_run _ _ s2 (ap not allowed.sender_active)) (
            >>=_ok _ _ s2 (raise_if_run _ _ s2 (ap not allowed.receiver_active)) (
              >>=_ok _ _ s2 (wrapping_run _ _ s2 summed.runs) (
                >>=_ok _ _ s3 (raise_if_run _ _ s3 (rw db2 allowed.covered))
                  (post_transfer_run s3 (summed.db ∙ db2)))))))

  abbrev IsFound : Uuid → Type 0
  IsFound id = (a : Account) × (find_account id base ≡ some a)

  in_order-IsFound :
      (swapped : Bool)
      → let ids : Uuid × Uuid =
          if swapped
          then (req.to_account_id, req.from_account_id)
          else (req.from_account_id, req.to_account_id) in
        IsFound ids.0 × IsFound ids.1
  in_order-IsFound true =
      ((allowed.receiver, allowed.receiver_found), (allowed.sender, allowed.sender_found))
  in_order-IsFound false =
      ((allowed.sender, allowed.sender_found), (allowed.receiver, allowed.receiver_found))

  lock_order-IsFound :
      IsFound (lock_order env req.from_account_id req.to_account_id).0
      × IsFound (lock_order env req.from_account_id req.to_account_id).1
  unfolding lock_order
  lock_order-IsFound =
      in_order-IsFound
        (str_gtb (env.uuid_string req.from_account_id) (env.uuid_string req.to_account_id))

  transfer_tx_run : (s : Session) → s.db ≡ base → (transfer_tx env d req txn_id s).0 ≡ ok tt
  unfolding transfer_tx
  transfer_tx_run s same =
      let ((a, a_found), (b, b_found)) = lock_order-IsFound in
      let first = get_account_for_update_run env calm _ s a (ap (find_account _) same ∙ a_found) in
      let db1 = first.db ∙ same in
      let second =
        get_account_for_update_run env calm _ first.after b (ap (find_account _) db1 ∙ b_found) in
      >>=_ok _ _ s first.runs
        (>>=_ok _ _ first.after second.runs (transfer_roles_run second.after (second.db ∙ db1)))

module _ (r : Redis) (env : Env) (d : Decimals) (req : TransferRequest d.Decimal) where
  finish_ok :
      (key : String) (txn_id : Uuid) (result : Result (Unit {0})) (w : World r.State)
      → result ≡ ok tt
      → (finish r env d key txn_id result w).0 ≡ ok (transfer_response txn_id)
  unfolding finish
  finish_ok key txn_id (ok _) w h = refl
  finish_ok key txn_id (err e) w h = absurd (cc)

  run_claimed_ok :
      (w : World r.State) (s : Session)
      → s ≡ (new_uuid env w.session).1
      → (with_tx env (transfer_tx env d req (env.new_uuid w.session.calls)) s).0 ≡ ok tt
      → (run_claimed r env d req (ok true) w).0
        ≡ ok (transfer_response (env.new_uuid w.session.calls))
  unfolding run_claimed
  run_claimed_ok w s same done = finish_ok _ _ _ _ (rw (sym same) done)

  -- Where no call fails, the drawn UUIDs are new, and Redis grants the key, a transfer that the
  -- tables allow is carried out, and the answer names the first UUID that is drawn.
  pub transfer_funds_succeeds :
      (w : World r.State)
      → IsCalm env
      → IsFresh env w.session.db
      → IsAllowed d req w.session.db
      → d.is_positive req.amount ≡ true
      → (r.set_nx (idempotency_key_of env d req) "processing" idempotency_ttl w.redis).0 ≡ ok true
      → (transfer_funds r env d req w).0 ≡ ok (transfer_response (env.new_uuid w.session.calls))
  transfer_funds_succeeds w calm fresh allowed positive claimed =
      let w' : World r.State = record w {
        redis = (r.set_nx (idempotency_key_of env d req) "processing" idempotency_ttl w.redis).1;
      } in
      let drawn = new_uuid_run env calm w.session in
      ap (λ x. x.0) (transfer_funds-valid r env d req w allowed.differ positive)
      ∙ ap (λ reply. (run_claimed r env d req reply w').0) claimed
      ∙ run_claimed_ok w' drawn.after (sym (ap (λ x. x.1) drawn.runs)) (
          with_tx_run env calm (transfer_tx env d req (env.new_uuid w.session.calls)) drawn.after (
            transfer_tx_run env calm d req _ w.session.db fresh allowed (fresh.transaction_ids _)
              (begin env drawn.after) drawn.db))
