-- ===== src/Concurrent/Safety.antt =====
-- What is committed, however the transactions are interleaved.
use bank_system.Prelude.{ℕ, ◌<◌, ◌≡◌, ap, Bool, true, false, List, [], ◌∷◌}
use bank_system.Prelude.Int.{◌≤ℤ◌, int_laws}
use bank_system.Store.Db.{Db, balance_of}
use bank_system.Store.Balance.{IsSolvent}
use bank_system.Transfer.Balances.{posted_db-IsMoved, IsMoved-IsSolvent}
use bank_system.External.{Env, Decimals, DecimalLaws}
use bank_system.Bank.{bank_of, transfer, Call, History, unmoved, moved}
use bank_system.Bank.Moves.{posted_db-Move}
use bank_system.Concurrent.{
  amount_of, from_of, starts, is_aborted, is_reading, Thread, writing, is_writing, is_past_checks,
  System, begun, Move, takes_first, misses_first, takes_second, misses_second, passes, is_refused,
  inserts, violates, writes, draws_twice, commits, Step, moves, fails, Run, here, onward,
  commit_rows,
}
use bank_system.Concurrent.Invariant.{Inv}
use bank_system.Concurrent.Steps.{Step-Inv}

module _ (env : Env) (d : Decimals) (threads : ℕ → Thread d) where
  pub begun-Inv : (db : Db) → Inv env d threads (begun db)
  begun-Inv db = record {
    exclusive = λ i j id held _. absurd (cc);
    covered = λ i e. absurd (cc);
    grown = λ i e. absurd (cc);
    payable = λ i e. absurd (cc);
    unrivalled = λ i j e. absurd (cc);
    few = λ i k e. absurd (cc);
  }

  -- The calls of some transactions, each of them a success.
  abbrev pub successes : List ℕ → List (Call d × Bool)
  successes [] = []
  successes (i ∷ l) = (transfer (threads i).req, true) ∷ successes l

  -- Each is one of the first so many.
  abbrev pub IsAmong : ℕ → List ℕ → Type 0
  IsAmong n [] = Unit
  IsAmong n (i ∷ l) = (i < n) × IsAmong n l

  -- Some transaction commits.
  abbrev Commits : ℕ → System → Type 0
  Commits i s = (s.phase i ≡ writing 3) × (s.excluded i ≡ false)

  -- The tables after a step are those before it, or those with the rows of one transaction that
  -- commits.
  module _ (P : Db → Type 0) (s : System) (same : P s.db) where
    move_cases :
        (i : ℕ) {t : System}
        → (Commits i s → P (commit_rows env d threads i s.db))
        → Move env d threads i s t
        → P t.db
    move_cases i commit (commits e free) = commit (e, free)
    move_cases i commit (starts e) = same
    move_cases i commit (is_aborted reading excluded) = same
    move_cases i commit (takes_first a e found free) = same
    move_cases i commit (misses_first e lost) = same
    move_cases i commit (takes_second a e found free) = same
    move_cases i commit (misses_second e lost) = same
    move_cases i commit (passes e p) = same
    move_cases i commit (is_refused e p) = same
    move_cases i commit (inserts e unrivalled fine) = same
    move_cases i commit (violates e broken) = same
    move_cases i commit (writes k e few fine) = same
    move_cases i commit (draws_twice k e twice) = same

    step_cases :
        {n : ℕ} {t : System}
        → ((i : ℕ) → i < n → Commits i s → P (commit_rows env d threads i s.db))
        → Step env d threads n s t
        → P t.db
    step_cases commit (moves i few move) = move_cases i (commit i few) move
    step_cases commit (fails i few open_) = same

  module _ (laws : DecimalLaws d) where
    -- What the committed rows of a run are on the bank.
    abbrev pub IsSerial : ℕ → Db → Db → Type 0
    IsSerial n before after =
        (IsSolvent before → IsSolvent after)
        × ((l : List ℕ) × (IsAmong n l × History d (successes l) (bank_of before) (bank_of after)))

    commit-IsSerial :
        (n : ℕ) (s : System) (i : ℕ)
        → i < n
        → Inv env d threads s
        → Commits i s
        → (after : Db) → IsSerial n (commit_rows env d threads i s.db) after
        → IsSerial n s.db after
    commit-IsSerial n s i few h (e, free) after (solvent, (l, (among, history))) =
        let p = h.payable i (ap is_writing e) in
        let seen_covered = h.covered i (ap is_past_checks e) in
        let grown = h.grown i (ap is_reading e) free in
        let covered : amount_of env d threads i
            ≤ℤ balance_of s.db.ledger (from_of env d threads i) =
          omega int_laws in
        let one = threads i in
        (
          λ before. solvent (
              IsMoved-IsSolvent d one.req s.db (commit_rows env d threads i s.db)
                (posted_db-IsMoved d one.req one.txn_id one.now one.debit_id one.credit_id s.db
                  p.differ)
                covered p.positive before),
          (
            i ∷ l,
            (
              (few, among),
              moved
                  (posted_db-Move d one.req true one.txn_id one.now one.debit_id one.credit_id s.db
                    p.differ p.positive covered p.fresh_key)
                  history,
            ),
          ),
        )

    run-IsSerial :
        {n : ℕ} {s t : System}
        → Run env d threads n s t
        → Inv env d threads s
        → IsSerial n s.db t.db
    run-IsSerial here h = (λ solvent. solvent, ([], (tt, unmoved)))
    run-IsSerial {n} {s} {t} (onward step rest) h =
        step_cases (λ db. IsSerial n db t.db → IsSerial n s.db t.db) s (λ serial. serial)
          (λ i few e. commit-IsSerial n s i few h e t.db) step
          (run-IsSerial rest (Step-Inv env d threads laws step h))

    -- However the steps of so many transfers in flight are interleaved, each reading its snapshot,
    -- and whichever of them fail, what they have committed is what some of the transfers have done one after the other: each of
    -- those has taken a positive amount that the sender had at that point to another account, under
    -- a key that was not used. And no account is overdrawn if none was.
    pub run_serial :
        (n : ℕ) (db : Db) {t : System}
        → Run env d threads n (begun db) t
        → (IsSolvent db → IsSolvent t.db)
          × ((l : List ℕ) × (IsAmong n l × History d (successes l) (bank_of db) (bank_of t.db)))
    run_serial n db run = run-IsSerial run (begun-Inv db)
