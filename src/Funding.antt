-- ===== src/Funding.antt =====
-- internal/service/funding.go: `FundingService`, which mints money.
pub mod Effect
pub mod Bookkeeping
mod Tests
use bank_system.Prelude.{not}
use bank_system.Errs.{Sentinel, sentinel, wrap}
use bank_system.Model.{Uuid, pending, completed, credit, FundRequest, FundResponse}
use bank_system.External.{Env, Decimals}
use bank_system.Store.Action.{Action, pure, ◌>>=◌, ◌>>◌, raise_if, wrapping, new_uuid, with_tx}
use bank_system.Store.Queries.{is_active, get_account_by_user_id}
use bank_system.Store.Statements.{
  get_account_for_update, create_transaction, insert_ledger_entry, update_transaction_status,
}

module _ (env : Env) (d : Decimals) where
  -- The rows, from the second step of the transaction on.
  unfoldable pub post_funding : FundRequest d.Decimal → Uuid → Uuid → Action (Unit {0})
  post_funding req system_account_id txn_id = do
    key ← new_uuid env
    create_transaction env d (record {
      id = txn_id;
      from_account_id = system_account_id;
      to_account_id = req.to_account_id;
      amount = req.amount;
      status = pending;
      idempotency_key = key;
      created_at = 0;
      updated_at = 0;
    })
    credit_id ← new_uuid env
    wrapping "credit ledger: " (
        insert_ledger_entry env d (record {
          id = credit_id;
          account_id = req.to_account_id;
          transaction_id = txn_id;
          amount = req.amount;
          entry_type = credit;
          created_at = 0;
        }))
    update_transaction_status env txn_id completed

  -- The function that `FundAccount` hands to `WithTx`.
  unfoldable pub fund_tx : FundRequest d.Decimal → Uuid → Uuid → Action (Unit {0})
  fund_tx req system_account_id txn_id = do
    target ← get_account_for_update env req.to_account_id
    raise_if (not (is_active target.status)) (wrap "target " (sentinel Sentinel.account_not_active))
    post_funding req system_account_id txn_id

  abbrev pub fund_response : FundRequest d.Decimal → Uuid → FundResponse d.Decimal
  fund_response req txn_id = record {
    transaction_id = txn_id;
    to_account_id = req.to_account_id;
    amount = req.amount;
    status = completed;
    message = "Funds minted successfully";
  }

  unfoldable pub fund_account : FundRequest d.Decimal → Uuid → Action (FundResponse d.Decimal)
  fund_account req system_user_id = do
    raise_if (not (d.is_positive req.amount)) (sentinel Sentinel.invalid_amount)
    txn_id ← new_uuid env
    system_acct ← wrapping "system account lookup: " (get_account_by_user_id env system_user_id)
    with_tx env (fund_tx req system_acct.id txn_id)
    pure (fund_response req txn_id)
