-- ===== src/Bank.antt =====
-- The money of the services, with no table in sight: a bank is the balance of every
-- account and the idempotency keys that have been used, and the calls of TransferFunds and
-- FundAccount (internal/service/transfer.go, internal/service/funding.go) are moves of it.
pub mod Moves
pub mod Refinement
mod Tests
use bank_system.Prelude.{ℕ, ◌≡◌, ◌≢◌, Bool, true, false, ◌||◌, List, [], ◌∷◌, ◌==◌, if◌then◌else◌}
use bank_system.Prelude.Int.{ℤ, pos, ◌+ℤ◌, ◌-ℤ◌, ◌≤ℤ◌}
use bank_system.Model.{Uuid, TransferRequest, FundRequest}
use bank_system.External.{Result, ok, err, Env, Decimals, Redis}
use bank_system.Store.Db.{Db, balance_of, has_key}
use bank_system.Transfer.{World, transfer_funds}
use bank_system.Funding.{fund_account}

pub record Bank : Type 0 where
  pub balance : Uuid → ℤ
  pub is_used : Uuid → Bool

-- The money moves from one account to another, under a key.
unfoldable pub pay : Uuid → Uuid → ℤ → Uuid → Bank → Bank
pay from to amount key b = record {
  balance = λ id.
      if id == from
      then b.balance id -ℤ amount
      else if id == to
      then b.balance id +ℤ amount
      else b.balance id;
  is_used = λ k. b.is_used k || key == k;
}

-- New money comes to an account, under a key.
unfoldable pub mint : Uuid → ℤ → Uuid → Bank → Bank
mint to amount key b = record {
  balance = λ id. if id == to then b.balance id +ℤ amount else b.balance id;
  is_used = λ k. b.is_used k || key == k;
}

-- The bank that some tables stand for.
unfoldable pub bank_of : Db → Bank
bank_of db = record { balance = balance_of db.ledger; is_used = λ k. has_key k db.transactions }

module _ (d : Decimals) where
  -- A call of a service: a transfer, or a funding for a user.
  pub data Call : Type 0 where
    transfer : TransferRequest d.Decimal → Call
    fund : FundRequest d.Decimal → Uuid → Call

  -- What a call that reports success, or does not, may do to the bank. A failed call may have been
  -- carried out: the reply can be lost.
  pub data Move : Call → (succeeded : Bool) → Bank → Bank → Type 0 where
    stays : {call : Call} {b : Bank} → Move call false b b
    pays :
        {b : Bank} {succeeded : Bool} (req : TransferRequest d.Decimal)
        → req.from_account_id ≢ req.to_account_id
        → pos 1 ≤ℤ d.to_numeric req.amount
        → d.to_numeric req.amount ≤ℤ b.balance req.from_account_id
        → b.is_used req.idempotency_key ≡ false
        → Move (transfer req) succeeded b (
            pay req.from_account_id req.to_account_id
              (d.to_numeric req.amount)
              req.idempotency_key
              b)
    mints :
        {b : Bank} {succeeded : Bool} (req : FundRequest d.Decimal) (user key : Uuid)
        → pos 1 ≤ℤ d.to_numeric req.amount
        → b.is_used key ≡ false
        → Move (fund req user) succeeded b (mint req.to_account_id (d.to_numeric req.amount) key b)

  -- The moves of some calls, one after the other.
  pub data History : List (Call × Bool) → Bank → Bank → Type 0 where
    unmoved : {b : Bank} → History [] b b
    moved :
        {call : Call} {succeeded : Bool} {rest : List (Call × Bool)} {b b' b'' : Bank}
        → Move call succeeded b b'
        → History rest b' b''
        → History ((call, succeeded) ∷ rest) b b''

  abbrev pub is_ok : {A : Type 0} → Result A → Bool
  is_ok (ok a) = true
  is_ok (err e) = false

  module _ (r : Redis) (env : Env) where
    -- The service of a call, and whether it reports success.
    unfoldable pub serve_call : Call → World r.State → Bool × World r.State
    serve_call (transfer req) w =
        let (result, w') = transfer_funds r env d req w in (is_ok result, w')
    serve_call (fund req user) w =
        let (result, s) = fund_account env d req user w.session in
        (is_ok result, record w { session = s })

    unfoldable pub serve_calls : List Call → World r.State → List (Call × Bool) × World r.State
    serve_calls [] w = ([], w)
    serve_calls (call ∷ calls) w =
        let (succeeded, w') = serve_call call w in
        let (outcomes, w'') = serve_calls calls w' in ((call, succeeded) ∷ outcomes, w'')
