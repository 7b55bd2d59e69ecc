-- ===== src/Transfer/Balances.antt =====
-- What a transfer does to the balances.
use bank_system.Prelude.{◌≡◌, ◌≢◌, refl, sym, none, arith, ◌==◌, Bool-cases, inl, inr}
use mathlib.Core.Path.{subst}
use bank_system.Prelude.Int.{pos, ◌+ℤ◌, ◌-ℤ◌, ◌≤ℤ◌, int_laws}
use bank_system.Model.{Uuid, Time, TransferRequest, TransferResponse}
use bank_system.External.{ok, Env, Decimals, DecimalLaws, Redis}
use bank_system.Store.Db.{Db, balance_of, transaction_violation}
use bank_system.Store.Balance.{IsSolvent, balance_of-pair, circulation, circulation-append}
use bank_system.Transfer.{World, transfer_funds}
use bank_system.Transfer.Effect.{posted_db, IsPosted}
use bank_system.Transfer.Outcome.{transfer_funds-IsPosted, transfer_funds_elim}

transaction_violation_differ :
    (db : Db) (t : _) → transaction_violation db t ≡ none → t.from_account_id ≢ t.to_account_id
unfolding transaction_violation
transaction_violation_differ db t h = ground arith

transaction_violation_positive :
    (db : Db) (t : _) → transaction_violation db t ≡ none → pos 1 ≤ℤ t.amount
unfolding transaction_violation
transaction_violation_positive db t h = ground arith

module _ (d : Decimals) (req : TransferRequest d.Decimal) where
  -- The balances after the rows of a transfer.
  abbrev pub IsMoved : Db → Db → Type 0
  IsMoved before after =
      (balance_of after.ledger req.from_account_id
        ≡ balance_of before.ledger req.from_account_id -ℤ d.to_numeric req.amount)
      × (balance_of after.ledger req.to_account_id
          ≡ balance_of before.ledger req.to_account_id +ℤ d.to_numeric req.amount)
      × ((id : Uuid)
          → id ≢ req.from_account_id
          → id ≢ req.to_account_id
          → balance_of after.ledger id ≡ balance_of before.ledger id)

  pub posted_db-IsMoved :
      (txn_id : Uuid) (now : Time) (debit_id credit_id : Uuid) (before : Db)
      → req.from_account_id ≢ req.to_account_id
      → IsMoved before (posted_db d req txn_id now debit_id credit_id before)
  posted_db-IsMoved txn_id now debit_id credit_id before differ = (
    rw balance_of-pair (grind int_laws),
    rw balance_of-pair (grind int_laws),
    λ id f t. rw balance_of-pair (grind int_laws),
  )

  pub IsMoved-IsSolvent :
      (before after : Db)
      → IsMoved before after
      → d.to_numeric req.amount ≤ℤ balance_of before.ledger req.from_account_id
      → pos 1 ≤ℤ d.to_numeric req.amount
      → IsSolvent before
      → IsSolvent after
  IsMoved-IsSolvent before after (sent, received, others) covered positive h id =
      let before_from = h req.from_account_id in
      let before_to = h req.to_account_id in
      elim (Bool-cases (id == req.from_account_id)) [
        | inl is_from ↦
            let e : id ≡ req.from_account_id = ground arith in rw (e, sent) (omega int_laws)
        | inr not_from ↦ elim (Bool-cases (id == req.to_account_id)) [
          | inl is_to ↦
              let e : id ≡ req.to_account_id = ground arith in rw (e, received) (omega int_laws)
          | inr not_to ↦ rw (others id (ground arith) (ground arith)) (h id)
        ]
      ]

module _ (d : Decimals) (req : TransferRequest d.Decimal) (txn_id : Uuid) (before after : Db) where
  pub IsPosted-balance_of : IsPosted d req txn_id before after → IsMoved d req before after
  IsPosted-balance_of p = subst (IsMoved d req before) (sym p.rows) (
      posted_db-IsMoved d req txn_id p.now p.debit_id p.credit_id before
        (transaction_violation_differ _ _ p.insertable))

  -- What the sender has covers the amount as it is stored, after rounding to four places.
  pub IsPosted-covered :
      DecimalLaws d
      → IsPosted d req txn_id before after
      → d.to_numeric req.amount ≤ℤ balance_of before.ledger req.from_account_id
  IsPosted-covered laws p =
      rw laws.to_numeric-from_numeric at (laws.to_numeric_mono req.amount _ p.covered)

  pub IsPosted-IsSolvent :
      DecimalLaws d → IsPosted d req txn_id before after → IsSolvent before → IsSolvent after
  IsPosted-IsSolvent laws p =
      IsMoved-IsSolvent d req before after (IsPosted-balance_of p) (IsPosted-covered laws p)
        (transaction_violation_positive _ _ p.insertable)

module _ (r : Redis) (env : Env) (d : Decimals) (req : TransferRequest d.Decimal) where
  -- Whatever `TransferFunds` returns, the sum of the whole ledger stays what it was.
  transfer_funds-circulation :
      (w : World r.State)
      → circulation (transfer_funds r env d req w).1.session.db.ledger
        ≡ circulation w.session.db.ledger
  unfolding circulation
  transfer_funds-circulation w =
      transfer_funds_elim r env d req
        (λ db. circulation db.ledger ≡ circulation w.session.db.ledger) w refl
        (λ txn_id after p. rw (p.rows, circulation-append) (omega int_laws))

  -- No account is overdrawn by `TransferFunds`, whatever it returns.
  pub transfer_funds-IsSolvent :
      DecimalLaws d
      → (w : World r.State) → IsSolvent w.session.db
      → IsSolvent (transfer_funds r env d req w).1.session.db
  transfer_funds-IsSolvent laws w h =
      transfer_funds_elim r env d req IsSolvent w h
        (λ txn_id after p. IsPosted-IsSolvent d req txn_id w.session.db after laws p h)

  -- A transfer that reports success lowers the sender's balance by the stored amount, raises the
  -- receiver's by as much, and leaves every other balance alone.
  pub transfer_funds-balance_of :
      (w : World r.State) {resp : TransferResponse} {w' : World r.State}
      → transfer_funds r env d req w ≡ (ok resp, w')
      → (balance_of w'.session.db.ledger req.from_account_id
          ≡ balance_of w.session.db.ledger req.from_account_id -ℤ d.to_numeric req.amount)
        × (balance_of w'.session.db.ledger req.to_account_id
            ≡ balance_of w.session.db.ledger req.to_account_id +ℤ d.to_numeric req.amount)
        × ((id : Uuid)
            → id ≢ req.from_account_id
            → id ≢ req.to_account_id
            → balance_of w'.session.db.ledger id ≡ balance_of w.session.db.ledger id)
  transfer_funds-balance_of w {resp} h =
      IsPosted-balance_of d req resp.transaction_id _ _ (transfer_funds-IsPosted r env d req w h).0
