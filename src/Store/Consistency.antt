-- ===== src/Store/Consistency.antt =====
-- The invariant of the tables: the constraints of the schema, and double-entry bookkeeping.
use bank_system.Prelude.{
  ◌≡◌, ◌≢◌, refl, sym, inl, inr, true, false, List, [], ◌∷◌, ◌++◌, All, All-append, All-imp,
  All-imp_unless, any-append, filter, filter-append, Distinct, Distinct-snoc, arith, none, ◌==◌,
  Bool-cases,
}
use mathlib.Core.List.{append-nil}
use bank_system.Prelude.Int.{ℤ, pos, ◌≤ℤ◌}
use bank_system.Model.{Uuid, Transaction, completed, LedgerEntry, EntryType, credit, debit}
use bank_system.Store.Db.{Db, transaction_violation, has_account, has_transaction, has_key}

abbrev pub entries_of : Uuid → List (LedgerEntry ℤ) → List (LedgerEntry ℤ)
entries_of id = filter (λ e. e.transaction_id == id)

-- A row of the ledger for one side of a transaction.
pub record IsLeg (t : Transaction ℤ) (account_id : Uuid) (entry_type : EntryType)
    (e : LedgerEntry ℤ) : Type 0 where
  pub account : e.account_id ≡ account_id
  pub of : e.transaction_id ≡ t.id
  pub amount : e.amount ≡ t.amount
  pub kind : e.entry_type ≡ entry_type

-- The rows that a transaction has in the ledger: a debit of the one account and a credit of the
-- other, or, where money is minted, the credit alone.
pub data IsLegs (t : Transaction ℤ) : List (LedgerEntry ℤ) → Type 0 where
  transferred :
      {d c : LedgerEntry ℤ}
      → IsLeg t t.from_account_id debit d
      → IsLeg t t.to_account_id credit c
      → IsLegs t (d ∷ c ∷ [])
  minted : {c : LedgerEntry ℤ} → IsLeg t t.to_account_id credit c → IsLegs t (c ∷ [])

pub record IsBooked (db : Db) (t : Transaction ℤ) : Type 0 where
  pub settled : t.status ≡ completed
  pub positive : pos 1 ≤ℤ t.amount
  pub differ : t.from_account_id ≢ t.to_account_id
  pub from_known : has_account t.from_account_id db.accounts ≡ true
  pub to_known : has_account t.to_account_id db.accounts ≡ true
  pub legs : IsLegs t (entries_of t.id db.ledger)

pub record IsLinked (db : Db) (e : LedgerEntry ℤ) : Type 0 where
  pub positive : pos 1 ≤ℤ e.amount
  pub account_known : has_account e.account_id db.accounts ≡ true
  pub transaction_known : has_transaction e.transaction_id db.transactions ≡ true

pub record IsConsistent (db : Db) : Type 0 where
  pub booked : All (IsBooked db) db.transactions
  pub linked : All (IsLinked db) db.ledger
  pub ids : Distinct (λ t. t.id) db.transactions
  pub keys : Distinct (λ t. t.idempotency_key) db.transactions
  pub entry_ids : Distinct (λ e. e.id) db.ledger

abbrev pub book : Transaction ℤ → List (LedgerEntry ℤ) → Db → Db
book t legs db = record db { transactions = db.transactions ++ t ∷ []; ledger = db.ledger ++ legs }

-- What a transaction that is to be booked must meet.
pub record IsBookable (db : Db) (t : Transaction ℤ) : Type 0 where
  pub settled : t.status ≡ completed
  pub positive : pos 1 ≤ℤ t.amount
  pub differ : t.from_account_id ≢ t.to_account_id
  pub from_known : has_account t.from_account_id db.accounts ≡ true
  pub to_known : has_account t.to_account_id db.accounts ≡ true
  pub fresh_id : has_transaction t.id db.transactions ≡ false
  pub fresh_key : has_key t.idempotency_key db.transactions ≡ false

entries_of-none :
    (id : Uuid) (legs : List (LedgerEntry ℤ))
    → All (λ e. (e.transaction_id == id) ≡ false) legs
    → entries_of id legs ≡ []
entries_of-none id [] h = refl
entries_of-none id (e ∷ legs) (h, hs) = ground (arith, entries_of-none id legs hs)

entries_of-All :
    (id : Uuid) (legs : List (LedgerEntry ℤ))
    → All (λ e. e.transaction_id ≡ id) legs
    → entries_of id legs ≡ legs
entries_of-All id [] h = refl
entries_of-All id (e ∷ legs) (h, hs) = ground (arith, entries_of-All id legs hs)

module _ (db : Db) (t : Transaction ℤ) (legs : List (LedgerEntry ℤ)) (consistent : IsConsistent db)
    (bookable : IsBookable db t) (of : All (λ e. e.transaction_id ≡ t.id) legs) where
  old_entries :
      (u : Transaction ℤ)
      → (u.id == t.id) ≡ false
      → entries_of u.id (db.ledger ++ legs) ≡ entries_of u.id db.ledger
  old_entries u other =
      rw
        (
          filter-append (λ e. e.transaction_id == u.id) db.ledger legs,
          entries_of-none u.id legs (
              All-imp (λ e. e.transaction_id ≡ t.id) (λ e. (e.transaction_id == u.id) ≡ false) legs
                (λ e h. ground arith) of),
          append-nil,
        )
        refl

  unlinked : (e : LedgerEntry ℤ) → IsLinked db e → (e.transaction_id == t.id) ≡ false
  unlinked e h = elim (Bool-cases (e.transaction_id == t.id)) [
    | inr other ↦ other
    | inl same ↦
        let p : e.transaction_id ≡ t.id = ground arith in
        let known : has_transaction t.id db.transactions ≡ true = rw p at h.transaction_known in
        absurd (cc bookable.fresh_id)
  ]

  new_entries : entries_of t.id (db.ledger ++ legs) ≡ legs
  new_entries =
      rw
        (
          filter-append (λ e. e.transaction_id == t.id) db.ledger legs,
          entries_of-none t.id db.ledger (
              All-imp (IsLinked db) (λ e. (e.transaction_id == t.id) ≡ false) db.ledger unlinked
                consistent.linked),
          entries_of-All t.id legs of,
        )
        refl

  still-IsBooked :
      (u : Transaction ℤ) → (u.id == t.id) ≡ false → IsBooked db u → IsBooked (book t legs db) u
  still-IsBooked u other b = record {
    settled = b.settled;
    positive = b.positive;
    differ = b.differ;
    from_known = b.from_known;
    to_known = b.to_known;
    legs = rw (old_entries u other) b.legs;
  }

  newly-IsBooked : IsLegs t legs → IsBooked (book t legs db) t
  newly-IsBooked l = record {
    settled = bookable.settled;
    positive = bookable.positive;
    differ = bookable.differ;
    from_known = bookable.from_known;
    to_known = bookable.to_known;
    legs = rw new_entries l;
  }

  still-IsLinked : (e : LedgerEntry ℤ) → IsLinked db e → IsLinked (book t legs db) e
  still-IsLinked e h = record {
    positive = h.positive;
    account_known = h.account_known;
    transaction_known =
        rw
          (any-append (λ u. u.id == e.transaction_id) db.transactions (t ∷ []), h.transaction_known)
          refl;
  }

  -- Booking a transaction with its legs keeps the tables consistent.
  pub book-IsConsistent :
      IsLegs t legs
      → All (IsLinked (book t legs db)) legs
      → Distinct (λ e. e.id) (db.ledger ++ legs)
      → IsConsistent (book t legs db)
  book-IsConsistent l linked entry_ids = record {
    booked =
        All-append (IsBooked (book t legs db)) db.transactions (t ∷ [])
          (All-imp_unless (IsBooked db) (IsBooked (book t legs db)) (λ u. u.id == t.id)
            db.transactions bookable.fresh_id still-IsBooked consistent.booked)
          (newly-IsBooked l, tt);
    linked =
        All-append (IsLinked (book t legs db)) db.ledger legs
          (All-imp (IsLinked db) (IsLinked (book t legs db)) db.ledger still-IsLinked
            consistent.linked)
          linked;
    ids = Distinct-snoc (λ u. u.id) db.transactions t consistent.ids bookable.fresh_id;
    keys =
        Distinct-snoc (λ u. u.idempotency_key) db.transactions t consistent.keys bookable.fresh_key;
    entry_ids = entry_ids;
  }

-- A row that meets the constraints of `transactions` can be booked once it is completed.
pub IsBookable-of_violation :
    (db : Db) (t : Transaction ℤ)
    → transaction_violation db t ≡ none
    → IsBookable db (record t { status = completed })
unfolding transaction_violation
IsBookable-of_violation db t h = record {
  settled = refl;
  positive = ground arith;
  differ = ground arith;
  from_known = ground arith;
  to_known = ground arith;
  fresh_id = ground arith;
  fresh_key = ground arith;
}

-- The tables only grow: no account or user changes, and rows are added behind those that are there.
pub record IsExtended (before after : Db) : Type 0 where
  pub users : after.users ≡ before.users
  pub accounts : after.accounts ≡ before.accounts
  pub new_transactions : List (Transaction ℤ)
  pub transactions : after.transactions ≡ before.transactions ++ new_transactions
  pub new_entries : List (LedgerEntry ℤ)
  pub ledger : after.ledger ≡ before.ledger ++ new_entries

pub IsExtended-refl : (db : Db) → IsExtended db db
IsExtended-refl db = record {
  users = refl;
  accounts = refl;
  new_transactions = [];
  transactions = sym (append-nil _);
  new_entries = [];
  ledger = sym (append-nil _);
}
