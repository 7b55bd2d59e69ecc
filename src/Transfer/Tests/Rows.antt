-- ===== src/Transfer/Tests/Rows.antt =====
-- The theorems on the rows, the locks and the success of a transfer at concrete inputs.
use bank_system.Prelude.{◌≡◌, ◌≢◌, refl, ap, str_eq, true, false, arith}
use bank_system.Prelude.Int.{ℤ}
use bank_system.Errs.{Sentinel, sentinel, wrap}
use bank_system.Model.{TransferRequest}
use bank_system.External.{err}
use bank_system.Store.Consistency.{IsConsistent}
use bank_system.Transfer.{transfer_tx, idempotency_key_of, transfer_funds}
use bank_system.Transfer.Bookkeeping.{transfer_funds-IsConsistent}
use bank_system.Transfer.Locks.{HasLocked, IsAscending, transfer_tx-IsAscending}
use bank_system.Transfer.Allowed.{IsFresh}
use bank_system.Transfer.Verdict.Answer.{verdict, transfer_funds-verdict}
use bank_system.Transfer.Tests.{served}
use bank_system.Fixtures.{
  calm-IsCalm, five_places, key_list, calm, tables, tables-IsConsistent, world, request, small_text,
}

transfer_funds-IsConsistent_example : IsConsistent served.1.session.db
transfer_funds-IsConsistent_example =
    transfer_funds-IsConsistent key_list calm five_places request world tables-IsConsistent

differ : request.from_account_id ≢ request.to_account_id
differ e = omega arith

transfer_tx-IsAscending_example :
    let l = (transfer_tx calm five_places request 1000 world.session).1.locks in
    HasLocked calm request.from_account_id request.to_account_id differ l × IsAscending calm l
transfer_tx-IsAscending_example =
    transfer_tx-IsAscending calm five_places request 1000 differ world.session refl

texts_differ : small_text 2 ≢ small_text 3
texts_differ e = let same : true ≡ false = ap (λ t. str_eq t (small_text 2)) e in absurd (cc)

tables-IsFresh : IsFresh calm tables
tables-IsFresh = record {
  transaction_ids = λ n. ground arith;
  entry_ids = λ n. ground arith;
  distinct = λ m n d e. ground arith;
}

-- The receiver's account is frozen.
abbrev to_frozen : TransferRequest ℤ
to_frozen = record request { to_account_id = 4 }

transfer_funds-verdict_example :
    (transfer_funds key_list calm five_places to_frozen world).0
    ≡ verdict key_list calm five_places to_frozen world
transfer_funds-verdict_example =
    transfer_funds-verdict key_list calm five_places to_frozen world calm-IsCalm tables-IsFresh

verdict-to_frozen :
    verdict key_list calm five_places to_frozen world
    ≡ err (wrap "receiver " (sentinel Sentinel.account_not_active))
unfolding idempotency_key_of
verdict-to_frozen = refl
