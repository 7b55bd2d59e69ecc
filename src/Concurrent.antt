-- ===== src/Concurrent.antt =====
-- internal/service/transfer.go: many transfers at once. The function that TransferFunds hands to
-- WithTx, cut into the statements that wait for other transactions or read what they commit. WithTx
-- (internal/store/store.go) opens each transaction as SERIALIZABLE. In PostgreSQL it reads from the
-- snapshot of its first statement, also after it has waited for a lock. It is not committed if it
-- and a transaction that has committed since have each read what the other has written; and it may
-- be rolled back, for a wider pattern of such conflicts, if it alone has.
pub mod Invariant
pub mod Commit
pub mod Steps
pub mod Safety
pub mod Runs
pub mod Progress
pub mod Deadlock
pub mod Bound
pub mod Completion
pub mod Alone
mod Tests
use bank_system.Prelude.{
  ℕ, suc, ◌≡◌, ◌≢◌, ◌<◌, Bool, true, false, not, ◌||◌, ◌&&◌, ◌==◌, none, some, Option,
  if◌then◌else◌,
}
use bank_system.Prelude.Int.{ℤ}
use bank_system.Model.{Uuid, Time, Account, Transaction, TransferRequest, pending}
use bank_system.External.{Env, Decimals}
use bank_system.Store.Db.{Db, has_entry, transaction_violation, balance_of}
use bank_system.Store.Queries.{is_active}
use bank_system.Store.Statements.{find_account}
use bank_system.Transfer.{lock_order}
use bank_system.Transfer.Effect.{posted_transaction, posted_db}

-- How far a transaction is. Each state says what it waits for or has done last: it has no snapshot
-- yet; it waits for the first lock, or the second; it has both, or has made the checks, or has
-- written the row of the transaction and so many of the three statements behind it; or it is over,
-- committed or rolled back.
pub data Phase : Type 0 where
  opened waiting_first waiting_second locked checked : Phase
  writing : ℕ → Phase
  returned : Phase

abbrev pub is_writing : Phase → Bool
is_writing (writing k) = true
is_writing _ = false

-- The checks have been made.
abbrev pub is_past_checks : Phase → Bool
is_past_checks checked = true
is_past_checks (writing k) = true
is_past_checks _ = false

-- It has its snapshot, and is not over.
abbrev pub is_reading : Phase → Bool
is_reading opened = false
is_reading returned = false
is_reading _ = true

abbrev pub is_over : Phase → Bool
is_over returned = true
is_over _ = false

-- A call of TransferFunds: its request, the UUIDs that it draws, and the start of its transaction.
pub record Thread (d : Decimals) : Type 0 where
  pub req : TransferRequest d.Decimal
  pub txn_id : Uuid
  pub debit_id : Uuid
  pub credit_id : Uuid
  pub now : Time

-- What is committed, how far each transaction is, its snapshot, whether a transaction that has
-- committed since the snapshot has written what it reads, and whether one excludes it.
pub record System : Type 0 where
  pub db : Db
  pub phase : ℕ → Phase
  pub seen : ℕ → Db
  pub stale : ℕ → Bool
  pub excluded : ℕ → Bool

abbrev pub set_phase : ℕ → Phase → System → System
set_phase i p s = record s { phase = λ j. if i == j then p else s.phase j }

-- The first statement begins: the snapshot is of what is committed now.
abbrev pub take_snapshot : ℕ → System → System
take_snapshot i s = record (set_phase i waiting_first s) {
  seen = λ j. if i == j then s.db else s.seen j;
  stale = λ j. if i == j then false else s.stale j;
  excluded = λ j. if i == j then false else s.excluded j;
}

module _ (env : Env) (d : Decimals) (threads : ℕ → Thread d) where
  abbrev pub from_of : ℕ → Uuid
  from_of i = (threads i).req.from_account_id

  abbrev pub to_of : ℕ → Uuid
  to_of i = (threads i).req.to_account_id

  abbrev pub first_of : ℕ → Uuid
  first_of i = (lock_order env (from_of i) (to_of i)).0

  abbrev pub second_of : ℕ → Uuid
  second_of i = (lock_order env (from_of i) (to_of i)).1

  abbrev pub amount_of : ℕ → ℤ
  amount_of i = d.to_numeric (threads i).req.amount

  abbrev pub key_of : ℕ → Uuid
  key_of i = (threads i).req.idempotency_key

  -- The row locks that a transaction has: they are released when it is over.
  abbrev pub holds : ℕ → Phase → Uuid → Bool
  holds i opened id = false
  holds i waiting_first id = false
  holds i waiting_second id = first_of i == id
  holds i locked id = from_of i == id || to_of i == id
  holds i checked id = from_of i == id || to_of i == id
  holds i (writing k) id = from_of i == id || to_of i == id
  holds i returned id = false

  -- The ledger rows of an account: a transfer reads those of its sender, for the balance, and adds to
  -- those of both accounts.
  abbrev pub writes_to : ℕ → Uuid → Bool
  writes_to i id = from_of i == id || to_of i == id

  -- Each of two transfers reads what the other writes.
  abbrev pub conflicts : ℕ → ℕ → Bool
  conflicts i j = writes_to i (from_of j) && writes_to j (from_of i)

  -- The row as it is inserted, and the tables after the commit.
  abbrev pub row_of : ℕ → Transaction ℤ
  row_of i = posted_transaction d (threads i).req (threads i).txn_id (threads i).now pending

  abbrev pub commit_rows : ℕ → Db → Db
  commit_rows i db =
      posted_db d (threads i).req (threads i).txn_id (threads i).now (threads i).debit_id
        (threads i).credit_id db

  -- The checks on the two accounts and the sender's balance, in the tables that are read.
  pub record Passes (i : ℕ) (db : Db) : Type 0 where
    pub sender : Account
    pub receiver : Account
    pub sender_found : find_account (from_of i) db ≡ some sender
    pub receiver_found : find_account (to_of i) db ≡ some receiver
    pub sender_active : is_active sender.status ≡ true
    pub receiver_active : is_active receiver.status ≡ true
    pub covered :
        d.less_than (d.from_numeric (balance_of db.ledger (from_of i))) (threads i).req.amount
        ≡ false

  -- The statement after so many behind the row of the transaction meets the constraint on ids.
  -- That two calls draw one id is not followed.
  abbrev pub meets_ids : ℕ → ℕ → Db → Bool
  meets_ids i k db =
      if k == 0
      then not (has_entry (threads i).debit_id db.ledger)
      else if k == 1
      then not (has_entry (threads i).credit_id db.ledger)
        && not ((threads i).credit_id == (threads i).debit_id)
      else true

  -- No other transaction has locked a row.
  abbrev pub IsFree : ℕ → Uuid → System → Type 0
  IsFree i id s = (j : ℕ) → j ≢ i → holds j (s.phase j) id ≡ false

  -- No other open transaction has inserted a row with this key; else the INSERT waits for it.
  abbrev pub IsUnrivalled : ℕ → System → Type 0
  IsUnrivalled i s = (j : ℕ) → j ≢ i → is_writing (s.phase j) ≡ true → key_of j ≢ key_of i

  -- The commit of a transaction, with what it excludes.
  abbrev pub commit_system : ℕ → System → System
  commit_system i s = record (set_phase i returned s) {
    db = commit_rows i s.db;
    stale = λ j. s.stale j || writes_to i (from_of j);
    excluded = λ j. s.excluded j || conflicts i j;
  }

  -- The next statement of a transaction. One that must wait has no move. The reads and the checks
  -- between the second lock and the INSERT are one step: they are all of the snapshot. No row of
  -- `accounts` is ever updated, so a lock that is granted late is no conflict by itself. The
  -- constraints are checked against what is committed, not against the snapshot.
  pub data Move (i : ℕ) (s : System) : System → Type 0 where
    starts : s.phase i ≡ opened → Move i s (take_snapshot i s)
    is_aborted :
        is_reading (s.phase i) ≡ true
        → (s.stale i || s.excluded i) ≡ true
        → Move i s (set_phase i returned s)
    takes_first :
        (a : Account)
        → s.phase i ≡ waiting_first
        → find_account (first_of i) (s.seen i) ≡ some a
        → IsFree i (first_of i) s
        → Move i s (set_phase i waiting_second s)
    misses_first :
        s.phase i ≡ waiting_first
        → find_account (first_of i) (s.seen i) ≡ none
        → Move i s (set_phase i returned s)
    takes_second :
        (a : Account)
        → s.phase i ≡ waiting_second
        → find_account (second_of i) (s.seen i) ≡ some a
        → IsFree i (second_of i) s
        → Move i s (set_phase i locked s)
    misses_second :
        s.phase i ≡ waiting_second
        → find_account (second_of i) (s.seen i) ≡ none
        → Move i s (set_phase i returned s)
    passes : s.phase i ≡ locked → Passes i (s.seen i) → Move i s (set_phase i checked s)
    is_refused : s.phase i ≡ locked → ¬ Passes i (s.seen i) → Move i s (set_phase i returned s)
    inserts :
        s.phase i ≡ checked
        → IsUnrivalled i s
        → transaction_violation s.db (row_of i) ≡ none
        → Move i s (set_phase i (writing 0) s)
    violates :
        s.phase i ≡ checked
        → transaction_violation s.db (row_of i) ≢ none
        → Move i s (set_phase i returned s)
    writes :
        (k : ℕ)
        → s.phase i ≡ writing k
        → k < 3
        → meets_ids i k s.db ≡ true
        → Move i s (set_phase i (writing (suc k)) s)
    draws_twice :
        (k : ℕ)
        → s.phase i ≡ writing k
        → meets_ids i k s.db ≡ false
        → Move i s (set_phase i returned s)
    commits : s.phase i ≡ writing 3 → s.excluded i ≡ false → Move i s (commit_system i s)

  -- One of so many transactions moves, or one that is not over is rolled back: a statement fails,
  -- the database finds a conflict where there is none, the request is cancelled, the connection is lost.
  pub data Step (n : ℕ) (s : System) : System → Type 0 where
    moves : {t : System} (i : ℕ) → i < n → Move i s t → Step n s t
    fails : (i : ℕ) → i < n → is_over (s.phase i) ≡ false → Step n s (set_phase i returned s)

  pub data Run (n : ℕ) : System → System → Type 0 where
    here : {s : System} → Run n s s
    onward : {s t u : System} → Step n s t → Run n t u → Run n s u

-- All transactions have begun, and none has a snapshot or a lock.
abbrev pub begun : Db → System
begun db = record {
  db = db;
  phase = λ i. opened;
  seen = λ i. db;
  stale = λ i. false;
  excluded = λ i. false;
}
