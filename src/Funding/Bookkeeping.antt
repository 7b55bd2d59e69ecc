-- ===== src/Funding/Bookkeeping.antt =====
-- Balances, the money in circulation and the invariant of the tables under `FundAccount`.
use bank_system.Prelude.{
  ℕ, ◌≡◌, ◌≢◌, refl, ap, List, [], ◌∷◌, All, Distinct-snoc, any-append, ◌==◌, some, get_elem?, zero,
  suc, arith, Bool-cases, inl, inr,
}
use bank_system.Prelude.Int.{ℤ, ◌+ℤ◌, int_laws}
use bank_system.Model.{Uuid, Transaction, LedgerEntry, completed, FundRequest, FundResponse}
use bank_system.External.{ok, Env, Decimals}
use bank_system.Store.Db.{Db, balance_of}
use bank_system.Store.Action.{Session}
use bank_system.Store.Queries.{active_accounts_of}
use bank_system.Store.Balance.{IsSolvent, balance_of-single, circulation, circulation-append}
use bank_system.Store.Consistency.{
  minted, IsConsistent, IsBookable, book-IsConsistent, IsBookable-of_violation, IsExtended,
  IsExtended-refl,
}
use bank_system.Funding.{fund_account}
use bank_system.Funding.Effect.{
  IsFunded, funding_transaction, funding_entry, fund_account_elim, fund_account-IsMinted,
}

module _ (d : Decimals) (req : FundRequest d.Decimal) (system_account_id txn_id : Uuid)
    (before after : Db) (p : IsFunded d req system_account_id txn_id before after) where
  abbrev t : Transaction ℤ
  t = funding_transaction d req system_account_id txn_id p.key p.now completed

  abbrev credited : LedgerEntry ℤ
  credited = funding_entry d req system_account_id txn_id p.key p.now p.credit_id

  IsFunded-IsBookable : IsBookable before t
  IsFunded-IsBookable = IsBookable-of_violation before _ p.insertable

  pub IsFunded-balance_of :
      (balance_of after.ledger req.to_account_id
        ≡ balance_of before.ledger req.to_account_id +ℤ d.to_numeric req.amount)
      × ((id : Uuid)
          → id ≢ req.to_account_id
          → balance_of after.ledger id ≡ balance_of before.ledger id)
  IsFunded-balance_of = (
    rw (p.rows, balance_of-single) (grind int_laws),
    λ id t. rw (p.rows, balance_of-single) (grind int_laws),
  )

  IsFunded-circulation :
      circulation after.ledger ≡ circulation before.ledger +ℤ d.to_numeric req.amount
  unfolding circulation
  IsFunded-circulation = rw (p.rows, circulation-append) (omega int_laws)

  IsFunded-IsSolvent : IsSolvent before → IsSolvent after
  IsFunded-IsSolvent h id =
      let (received, others) = IsFunded-balance_of in
      let b = IsFunded-IsBookable in
      let positive = b.positive in
      let before_to = h req.to_account_id in
      elim (Bool-cases (id == req.to_account_id)) [
        | inl is_to ↦
            let e : id ≡ req.to_account_id = ground arith in rw (e, received) (omega int_laws)
        | inr not_to ↦ rw (others id (ground arith)) (h id)
      ]

  IsFunded-IsConsistent : IsConsistent before → IsConsistent after
  IsFunded-IsConsistent h =
      let b = IsFunded-IsBookable in
      rw p.rows (
        book-IsConsistent before t (credited ∷ []) h b (refl, tt)
          (minted (record { account = refl; of = refl; amount = refl; kind = refl }))
          (
            record {
              positive = b.positive;
              account_known = b.to_known;
              transaction_known =
                  rw (any-append (λ u. u.id == txn_id) before.transactions (t ∷ [])) (ground arith);
            },
            tt,
          )
          (Distinct-snoc (λ e. e.id) before.ledger credited h.entry_ids p.credit_insertable))

  IsFunded-IsExtended : IsExtended before after
  IsFunded-IsExtended = rw p.rows (record {
    users = refl;
    accounts = refl;
    new_transactions = t ∷ [];
    transactions = refl;
    new_entries = credited ∷ [];
    ledger = refl;
  })

All-get_elem? :
    {A : Type 0} (P : A → Type 0) (l : List A) (i : ℕ) {a : A}
    → All P l
    → get_elem? l i ≡ some a
    → P a
All-get_elem? P [] i h e = absurd (cc)
All-get_elem? P (x ∷ l) zero (h, _) e = let same : x ≡ _ = ground arith in rw same at h
All-get_elem? P (x ∷ l) (suc i) (_, h) e = All-get_elem? P l i h e

module _ (env : Env) (d : Decimals) (req : FundRequest d.Decimal) (system_user_id : Uuid) where
  -- A funding that reports success raises the target's balance and the sum of the whole ledger by
  -- the stored amount, and leaves every other balance alone: the system account is not debited.
  pub fund_account-balance_of :
      (s : Session) {resp : FundResponse d.Decimal} {s' : Session}
      → fund_account env d req system_user_id s ≡ (ok resp, s')
      → (balance_of s'.db.ledger req.to_account_id
          ≡ balance_of s.db.ledger req.to_account_id +ℤ d.to_numeric req.amount)
        × ((id : Uuid)
            → id ≢ req.to_account_id
            → balance_of s'.db.ledger id ≡ balance_of s.db.ledger id)
        × (circulation s'.db.ledger ≡ circulation s.db.ledger +ℤ d.to_numeric req.amount)
  fund_account-balance_of s h =
      let m = fund_account-IsMinted env d req system_user_id s h in
      let (received, others) = IsFunded-balance_of d req _ _ _ _ m.funded in
      (received, others, IsFunded-circulation d req _ _ _ _ m.funded)

  -- Whatever `FundAccount` returns, it keeps the tables consistent and no account overdrawn, and it
  -- has only added rows.
  pub fund_account-IsConsistent :
      (s : Session)
      → IsConsistent s.db
      → IsSolvent s.db
      → IsConsistent (fund_account env d req system_user_id s).1.db
        × IsSolvent (fund_account env d req system_user_id s).1.db
        × IsExtended s.db (fund_account env d req system_user_id s).1.db
  fund_account-IsConsistent s h solvent = (
    fund_account_elim env d req system_user_id IsConsistent s h
        (λ i j after p. IsFunded-IsConsistent d req i j _ after p h),
    fund_account_elim env d req system_user_id IsSolvent s solvent
        (λ i j after p. IsFunded-IsSolvent d req i j _ after p solvent),
    fund_account_elim env d req system_user_id (IsExtended s.db) s (IsExtended-refl _)
        (λ i j after p. IsFunded-IsExtended d req i j _ after p),
  )

  -- A user cannot fund the only active account that the user has: the funding reports an error,
  -- since the row of the transaction would have that account on both sides.
  fund_account_self :
      (s : Session)
      → All (λ a. a.id ≡ req.to_account_id) (active_accounts_of system_user_id s.db)
      → (resp : FundResponse d.Decimal) → (fund_account env d req system_user_id s).0 ≢ ok resp
  fund_account_self s own resp h =
      let m =
        fund_account-IsMinted env d req system_user_id s
          (ap (λ x. (x, (fund_account env d req system_user_id s).1)) h) in
      (IsFunded-IsBookable d req _ _ _ _ m.funded).differ
        (All-get_elem? (λ a. a.id ≡ req.to_account_id) _ _ own m.system_picked)
