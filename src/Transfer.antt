-- ===== src/Transfer.antt =====
-- internal/service/transfer.go: `TransferService`. The logging and the latency that is logged are
-- left out.
pub mod Effect
pub mod Outcome
pub mod Balances
pub mod Bookkeeping
pub mod Locks
pub mod Allowed
pub mod Success
pub mod Verdict
pub mod Idempotency
mod Tests
use bank_system.Prelude.{
  ℕ, ◌*◌, String, str_append, str_gtb, Bool, true, false, not, ◌==◌, if◌then◌else◌,
}
use bank_system.Errs.{Sentinel, Error, sentinel, wrap}
use bank_system.Model.{
  Uuid, Account, AccountStatus, active, TransactionStatus, pending, completed, Transaction,
  LedgerEntry, EntryType, credit, debit, TransferRequest, TransferResponse,
}
use bank_system.External.{Result, ok, err, Env, Decimals, Redis}
use bank_system.Store.Action.{
  Session, Action, pure, ◌>>=◌, ◌>>◌, raise_if, wrapping, new_uuid, with_tx,
}
use bank_system.Store.Queries.{is_active}
use bank_system.Store.Statements.{
  get_account_for_update, get_balance, create_transaction, insert_ledger_entry,
  update_transaction_status,
}

-- What the service works on: the session with the tables, and the Redis server.
pub record World (R : Type 0) : Type 0 where
  pub session : Session
  pub redis : R

-- 24 hours, in nanoseconds.
abbrev pub idempotency_ttl : ℕ
idempotency_ttl = 24 * 3600 * 1_000_000_000

abbrev pub redis_key_prefix : String
redis_key_prefix = "vault:idempotency:"

abbrev pub transfer_response : Uuid → TransferResponse
transfer_response txn_id = record {
  transaction_id = txn_id;
  status = completed;
  message = "Transfer completed successfully";
}

module _ (env : Env) where
  -- `firstLock, secondLock`: the accounts in the order of their UUIDs' texts.
  unfoldable pub lock_order : Uuid → Uuid → Uuid × Uuid
  lock_order from to =
      if str_gtb (env.uuid_string from) (env.uuid_string to) then (to, from) else (from, to)

module _ (env : Env) (d : Decimals) where
  -- The second half of the function that `TransferFunds` hands to `WithTx`: the rows.
  unfoldable pub post_transfer : TransferRequest d.Decimal → Uuid → Action (Unit {0})
  post_transfer req txn_id = do
    create_transaction env d (record {
      id = txn_id;
      from_account_id = req.from_account_id;
      to_account_id = req.to_account_id;
      amount = req.amount;
      status = pending;
      idempotency_key = req.idempotency_key;
      created_at = 0;
      updated_at = 0;
    })
    debit_id ← new_uuid env
    credit_id ← new_uuid env
    wrapping "debit ledger: " (
        insert_ledger_entry env d (record {
          id = debit_id;
          account_id = req.from_account_id;
          transaction_id = txn_id;
          amount = req.amount;
          entry_type = debit;
          created_at = 0;
        }))
    wrapping "credit ledger: " (
        insert_ledger_entry env d (record {
          id = credit_id;
          account_id = req.to_account_id;
          transaction_id = txn_id;
          amount = req.amount;
          entry_type = credit;
          created_at = 0;
        }))
    update_transaction_status env txn_id completed

  -- The part between: the accounts in their roles, the checks, and then the rows.
  unfoldable pub transfer_roles : TransferRequest d.Decimal → Uuid → Action (Unit {0})
  transfer_roles req txn_id = do
    from_acct ← wrapping "sender account: " (get_account_for_update env req.from_account_id)
    to_acct ← wrapping "receiver account: " (get_account_for_update env req.to_account_id)
    raise_if (not (is_active from_acct.status))
        (wrap "sender " (sentinel Sentinel.account_not_active))
    raise_if (not (is_active to_acct.status))
        (wrap "receiver " (sentinel Sentinel.account_not_active))
    sender_balance ← wrapping "sender balance: " (get_balance env d req.from_account_id)
    raise_if (d.less_than sender_balance req.amount) (sentinel Sentinel.insufficient_funds)
    post_transfer req txn_id

  -- The function that `TransferFunds` hands to `WithTx`.
  unfoldable pub transfer_tx : TransferRequest d.Decimal → Uuid → Action (Unit {0})
  transfer_tx req txn_id = do
    get_account_for_update env (lock_order env req.from_account_id req.to_account_id).0
    get_account_for_update env (lock_order env req.from_account_id req.to_account_id).1
    transfer_roles req txn_id

  unfoldable pub idempotency_key_of : TransferRequest d.Decimal → String
  idempotency_key_of req = str_append redis_key_prefix (env.uuid_string req.idempotency_key)

  -- `TransferService.GetBalance`
  unfoldable pub service_balance : Uuid → Action d.Decimal
  service_balance account_id =
      with_tx env do get_account_for_update env account_id; get_balance env d account_id

module _ (r : Redis) (env : Env) (d : Decimals) where
  -- The end of `TransferFunds`: on an error the deferred function deletes the idempotency key;
  -- else the key is set to the transaction's id. Errors of Redis are dropped on both ways.
  unfoldable pub finish :
      String → Uuid → Result (Unit {0}) → World r.State → Result TransferResponse × World r.State
  finish key txn_id (err e) w = (err e, record w { redis = (r.del key w.redis).1 })
  finish key txn_id (ok _) w = (
    ok (transfer_response txn_id),
    record w { redis = (r.set key (env.uuid_string txn_id) idempotency_ttl w.redis).1 },
  )

  -- From the reply of SETNX on.
  unfoldable pub run_claimed :
      TransferRequest d.Decimal
      → Result Bool
      → World r.State
      → Result TransferResponse × World r.State
  unfolding finish idempotency_key_of
  run_claimed req (err e) w = (err (wrap "redis idempotency check: " e), w)
  run_claimed req (ok false) w = (err (sentinel Sentinel.duplicate_transaction), w)
  run_claimed req (ok true) w =
      let txn_id = env.new_uuid w.session.calls in
      let (result, session) =
        with_tx env (transfer_tx env d req txn_id) (new_uuid env w.session).1 in
      finish (idempotency_key_of env d req) txn_id result (record w { session = session })

  unfoldable pub transfer_funds :
      TransferRequest d.Decimal → World r.State → Result TransferResponse × World r.State
  unfolding run_claimed idempotency_key_of
  transfer_funds req w =
      if req.from_account_id == req.to_account_id
      then (err (sentinel Sentinel.same_account), w)
      else if not (d.is_positive req.amount)
      then (err (sentinel Sentinel.invalid_amount), w)
      else (let (reply, redis) =
            r.set_nx (idempotency_key_of env d req) "processing" idempotency_ttl w.redis in
          run_claimed req reply (record w { redis = redis }))
