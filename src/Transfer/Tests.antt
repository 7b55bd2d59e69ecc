-- ===== src/Transfer/Tests.antt =====
-- Runs of the transfer service, and the theorems at concrete inputs.
mod Retries
mod Rows
use bank_system.Prelude.{ℕ, true, ◌≡◌, ◌≢◌, refl, ◌⊎◌, List, [], String, arith}
use bank_system.Prelude.Int.{ℤ, pos, ◌+ℤ◌, ◌-ℤ◌}
use bank_system.Errs.{Sentinel, sentinel, wrap, driver}
use bank_system.Model.{Uuid, TransferRequest, TransferResponse, completed}
use bank_system.External.{Result, ok, err, Env}
use bank_system.Store.Db.{balance_of, transaction_violation, ledger_violation, set_status}
use bank_system.Store.Statements.{
  get_account_for_update, get_balance, create_transaction, insert_ledger_entry, insert_ledger_row,
  insert_transaction_row, lock_row, update_transaction_status,
}
use bank_system.Store.Action.{
  with_tx, commit, ◌>>=◌, wrapping, statement, gets, new_uuid, lock, add_lock, pure, raise,
  raise_if, enforce, modify,
}
use bank_system.Store.Balance.{IsSolvent, circulation}
use bank_system.Transfer.{
  World, transfer_response, lock_order, post_transfer, transfer_roles, transfer_tx, finish,
  idempotency_key_of, run_claimed, transfer_funds,
}
use bank_system.Transfer.Effect.{IsPosted}
use bank_system.Transfer.Outcome.{IsLost, transfer_funds-IsPosted, transfer_funds-err_keeps}
use bank_system.Transfer.Balances.{transfer_funds-balance_of, transfer_funds-IsSolvent}
use bank_system.Concurrent.{Thread, System, Run, begun, returned}
use bank_system.Concurrent.Alone.{transfer_funds_alone}
use bank_system.Fixtures.{
  five_places, five_places-laws, tables-IsSolvent, key_list, calm, lossy, tables, world, request,
}

-- A run of the service, with all that it calls unfolded.
run : Env → TransferRequest ℤ → World (List String) → Result TransferResponse × World (List String)
unfolding transfer_funds run_claimed finish idempotency_key_of transfer_tx transfer_roles
    post_transfer lock_order with_tx commit ◌>>=◌ wrapping statement gets new_uuid lock add_lock
    pure raise raise_if enforce modify get_account_for_update lock_row get_balance
    create_transaction insert_transaction_row insert_ledger_entry insert_ledger_row
    update_transaction_status balance_of set_status transaction_violation ledger_violation ◌+ℤ◌ ◌-ℤ◌
run env = transfer_funds key_list env five_places

run-calm : (run calm request world).0 ≡ ok (transfer_response 1000)
unfolding run
run-calm = refl

run_again :
    (run calm request (run calm request world).1).0 ≡ err (sentinel Sentinel.duplicate_transaction)
unfolding run
run_again = refl

-- The amount is stored as 250.0002.
run_balances :
    let l = (run calm request world).1.session.db.ledger in
    (balance_of l 2 ≡ pos 749_998) × (balance_of l 3 ≡ pos 250_002)
unfolding run
run_balances = (refl, refl)

-- The reply to the COMMIT is lost: the caller may retry, and the retry meets the UNIQUE constraint.
run-lossy :
    let (r, w) = run lossy request world in
    (r ≡ err (wrap "commit tx: " (driver "connection reset")))
    × (w.redis ≡ [])
    × ((run calm request w).0
        ≡ err (wrap "create transaction: " (driver "pq: constraint violated")))
unfolding run
run-lossy = (refl, refl, refl)

abbrev served : Result TransferResponse × World (List String)
served = transfer_funds key_list calm five_places request world

request_served : served ≡ (ok (transfer_response 1000), served.1)
unfolding run
request_served = refl

abbrev cut_off : Result TransferResponse × World (List String)
cut_off = transfer_funds key_list lossy five_places request world

request_cut_off : cut_off ≡ (err (wrap "commit tx: " (driver "connection reset")), cut_off.1)
unfolding run
request_cut_off = refl

transfer_funds-IsPosted_example :
    IsPosted five_places request 1000 tables served.1.session.db
    × (completed ≡ completed)
    × (request.from_account_id ≢ request.to_account_id)
    × (five_places.is_positive request.amount ≡ true)
transfer_funds-IsPosted_example =
    transfer_funds-IsPosted key_list calm five_places request world request_served

transfer_funds-err_keeps_example :
    (cut_off.1.session.db ≡ tables)
    ⊎ IsLost key_list lossy five_places request
        (wrap "commit tx: " (driver "connection reset"))
        tables
        cut_off.1.session.db
transfer_funds-err_keeps_example =
    transfer_funds-err_keeps key_list lossy five_places request world request_cut_off

transfer_funds-balance_of_example :
    (balance_of served.1.session.db.ledger 2 ≡ balance_of tables.ledger 2 -ℤ pos 250_002)
    × (balance_of served.1.session.db.ledger 3 ≡ balance_of tables.ledger 3 +ℤ pos 250_002)
    × ((id : Uuid)
        → id ≢ 2
        → id ≢ 3
        → balance_of served.1.session.db.ledger id ≡ balance_of tables.ledger id)
transfer_funds-balance_of_example =
    transfer_funds-balance_of key_list calm five_places request world request_served

transfer_funds-IsSolvent_example : IsSolvent served.1.session.db
transfer_funds-IsSolvent_example =
    transfer_funds-IsSolvent key_list calm five_places request five_places-laws world
      tables-IsSolvent

transfer_funds_alone_example :
    (threads : ℕ → Thread five_places) × (((threads 0).req ≡ request)
      × (((threads 0).txn_id ≡ 1000)
          × ((t : System) × (Run calm five_places threads 1 (begun tables) t
                × ((t.db ≡ served.1.session.db) × (t.phase 0 ≡ returned))))))
transfer_funds_alone_example =
    transfer_funds_alone key_list calm five_places request world request_served
