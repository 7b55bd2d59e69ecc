-- ===== src/Bank/Moves.antt =====
-- The rows of a transfer or a funding as a move of the bank.
use bank_system.Prelude.{
  ◌≡◌, ◌≢◌, sym, ap, ◌∙◌, List, ◌++◌, Bool, false, ◌||◌, [], ◌∷◌, any-append, ◌==◌, Bool-cases, inl,
  inr, arith, if◌then◌else◌,
}
use mathlib.Core.Path.{subst}
use bank_system.Prelude.Int.{ℤ, pos, ◌+ℤ◌, ◌-ℤ◌, ◌≤ℤ◌}
use bank_system.Model.{Uuid, Time, Transaction, TransferRequest, FundRequest}
use bank_system.External.{Decimals, DecimalLaws}
use bank_system.Store.Db.{Db, balance_of, has_key}
use bank_system.Store.Consistency.{IsBookable-of_violation}
use bank_system.Transfer.Effect.{posted_db, IsPosted}
use bank_system.Transfer.Balances.{posted_db-IsMoved, IsPosted-covered}
use bank_system.Funding.Effect.{IsFunded}
use bank_system.Funding.Bookkeeping.{IsFunded-balance_of}
use bank_system.Bank.{Bank, pay, mint, bank_of, transfer, fund, Move, pays, mints}

-- Two banks with the same balances and keys are the same.
same_bank :
    (b b' : Bank)
    → ((id : Uuid) → b.balance id ≡ b'.balance id)
    → ((k : Uuid) → b.is_used k ≡ b'.is_used k)
    → b ≡ b'
same_bank b b' balances keys i = record { balance = λ id. balances id i; is_used = λ k. keys k i }

-- A key is used if it was, or if it is that of a transaction that is added.
pub has_key-snoc :
    (l : List (Transaction ℤ)) (t : Transaction ℤ) (k : Uuid)
    → has_key k (l ++ t ∷ []) ≡ (has_key k l || t.idempotency_key == k)
has_key-snoc l t k =
    rw (any-append (λ u. u.idempotency_key == k) l (t ∷ []))
      (or_last (has_key k l) (t.idempotency_key == k))
  where
    or_last : (b c : Bool) → (b || (c || false)) ≡ (b || c)
    or_last b c = ground arith

module _ (f f' : Uuid → ℤ) (from to : Uuid) (amount : ℤ) where
  raised :
      f' to ≡ f to +ℤ amount
      → ((id : Uuid) → id ≢ to → f' id ≡ f id)
      → (id : Uuid) → (if id == to then f id +ℤ amount else f id) ≡ f' id
  raised received others id = elim (Bool-cases (id == to)) [
    | inl is_to ↦ let e : id ≡ to = ground arith in rw (is_to, e) (sym received)
    | inr not_to ↦ rw not_to (sym (others id (ground arith)))
  ]

  moved_over :
      f' from ≡ f from -ℤ amount
      → f' to ≡ f to +ℤ amount
      → ((id : Uuid) → id ≢ from → id ≢ to → f' id ≡ f id)
      → (id : Uuid)
      → (if id == from then f id -ℤ amount else if id == to then f id +ℤ amount else f id) ≡ f' id
  moved_over sent received others id = elim (Bool-cases (id == from)) [
    | inl is_from ↦ let e : id ≡ from = ground arith in rw (is_from, e) (sym sent)
    | inr not_from ↦ elim (Bool-cases (id == to)) [
      | inl is_to ↦ let e : id ≡ to = ground arith in rw (not_from, is_to, e) (sym received)
      | inr not_to ↦ rw (not_from, not_to) (sym (others id (ground arith) (ground arith)))
    ]
  ]

-- The rows of a transfer, by whichever way the checks have been made.
pub posted_db-Move :
    (d : Decimals) (req : TransferRequest d.Decimal) (succeeded : Bool) (txn_id : Uuid) (now : Time)
    (debit_id credit_id : Uuid) (before : Db)
    → req.from_account_id ≢ req.to_account_id
    → pos 1 ≤ℤ d.to_numeric req.amount
    → d.to_numeric req.amount ≤ℤ balance_of before.ledger req.from_account_id
    → has_key req.idempotency_key before.transactions ≡ false
    → Move d
        (transfer req)
        succeeded
        (bank_of before)
        (bank_of (posted_db d req txn_id now debit_id credit_id before))
unfolding bank_of pay
posted_db-Move d req succeeded txn_id now debit_id credit_id before differ positive covered fresh =
    let (sent, received, others) =
      posted_db-IsMoved d req txn_id now debit_id credit_id before differ in
    subst (Move d (transfer req) succeeded (bank_of before))
      (same_bank _ _
        (moved_over (balance_of before.ledger)
          (balance_of (posted_db d req txn_id now debit_id credit_id before).ledger)
          req.from_account_id req.to_account_id (d.to_numeric req.amount) sent received others)
        (λ k. sym (has_key-snoc before.transactions _ k)))
      (pays req differ positive covered fresh)

module _ (d : Decimals) (before after : Db) where
  pub IsPosted-Move :
      DecimalLaws d
      → (req : TransferRequest d.Decimal) (txn_id : Uuid) (succeeded : Bool)
      → IsPosted d req txn_id before after
      → Move d (transfer req) succeeded (bank_of before) (bank_of after)
  IsPosted-Move laws req txn_id succeeded p =
      let b = IsBookable-of_violation before _ p.insertable in
      subst (λ db. Move d (transfer req) succeeded (bank_of before) (bank_of db)) (sym p.rows)
        (posted_db-Move d req succeeded txn_id p.now p.debit_id p.credit_id before b.differ
          b.positive (IsPosted-covered d req txn_id before after laws p) b.fresh_key)

  pub IsFunded-Move :
      (req : FundRequest d.Decimal) (user system_account_id txn_id : Uuid) (succeeded : Bool)
      → IsFunded d req system_account_id txn_id before after
      → Move d (fund req user) succeeded (bank_of before) (bank_of after)
  unfolding bank_of mint
  IsFunded-Move req user system_account_id txn_id succeeded p =
      let (received, others) = IsFunded-balance_of d req system_account_id txn_id before after p in
      let b = IsBookable-of_violation before _ p.insertable in
      subst (Move d (fund req user) succeeded (bank_of before))
        (same_bank _ _
          (raised (balance_of before.ledger) (balance_of after.ledger) req.to_account_id
            req.to_account_id (d.to_numeric req.amount) received others)
          (λ k.
            sym
              (ap (λ db. has_key k db.transactions) p.rows ∙ has_key-snoc before.transactions _ k)))
        (mints req user p.key b.positive b.fresh_key)
