-- ===== src/Funding/Tests.antt =====
-- Runs of the funding service, and the theorems at concrete inputs.
use bank_system.Prelude.{◌≡◌, ◌≢◌, refl}
use bank_system.Prelude.Int.{ℤ, pos, ◌+ℤ◌}
use bank_system.Model.{Uuid, FundRequest, FundResponse}
use bank_system.External.{Result, ok}
use bank_system.Store.Db.{balance_of, transaction_violation, ledger_violation, set_status}
use bank_system.Store.Statements.{
  get_account_for_update, create_transaction, insert_ledger_entry, insert_ledger_row,
  insert_transaction_row, lock_row, update_transaction_status,
}
use bank_system.Store.Action.{
  Session, with_tx, commit, ◌>>=◌, wrapping, statement, gets, new_uuid, lock, add_lock, pure, raise,
  raise_if, enforce, modify,
}
use bank_system.Store.Queries.{get_account_by_user_id, found_account, single}
use bank_system.Store.Balance.{IsSolvent, circulation}
use bank_system.Store.Consistency.{IsConsistent, IsExtended}
use bank_system.Funding.{post_funding, fund_tx, fund_response, fund_account}
use bank_system.Funding.Effect.{IsMinted, fund_account-IsMinted}
use bank_system.Funding.Bookkeeping.{fund_account-balance_of, fund_account-IsConsistent}
use bank_system.Fixtures.{five_places, calm, tables, world, tables-IsSolvent, tables-IsConsistent}

-- 7 for account 3.
abbrev gift : FundRequest ℤ
gift = record { to_account_id = 3; amount = pos 700_000 }

abbrev funded : Result (FundResponse ℤ) × Session
funded = fund_account calm five_places gift 1 world.session

gift_funded : funded ≡ (ok (fund_response calm five_places gift 1000), funded.1)
unfolding fund_account fund_tx post_funding get_account_by_user_id found_account single with_tx
    commit ◌>>=◌ wrapping statement gets new_uuid lock add_lock pure raise raise_if enforce modify
    get_account_for_update lock_row create_transaction insert_transaction_row insert_ledger_entry
    insert_ledger_row update_transaction_status set_status transaction_violation ledger_violation
gift_funded = refl

fund_account-IsMinted_example :
    IsMinted calm five_places gift 1 tables funded.1.db (fund_response calm five_places gift 1000)
fund_account-IsMinted_example =
    fund_account-IsMinted calm five_places gift 1 world.session gift_funded

fund_account-balance_of_example :
    (balance_of funded.1.db.ledger 3 ≡ balance_of tables.ledger 3 +ℤ pos 70_000)
    × ((id : Uuid) → id ≢ 3 → balance_of funded.1.db.ledger id ≡ balance_of tables.ledger id)
    × (circulation funded.1.db.ledger ≡ circulation tables.ledger +ℤ pos 70_000)
fund_account-balance_of_example =
    fund_account-balance_of calm five_places gift 1 world.session gift_funded

fund_account-IsConsistent_example :
    IsConsistent funded.1.db × IsSolvent funded.1.db × IsExtended tables funded.1.db
fund_account-IsConsistent_example =
    fund_account-IsConsistent calm five_places gift 1 world.session tables-IsConsistent
      tables-IsSolvent

-- The system user's own account.
abbrev own : FundRequest ℤ
own = record { to_account_id = 1; amount = pos 700_000 }
