-- ===== src/Concurrent/Alone.antt =====
-- A transfer that no other one disturbs.
use bank_system.Prelude.{
  ℕ, zero, suc, ◌+◌, ◌≡◌, ◌≢◌, refl, sym, ap, ◌∙◌, Bool, true, false, not, ◌&&◌, ◌||◌, ◌==◌, some,
  arith, any-append, ◌++◌, [], ◌∷◌, if◌then◌else◌,
}
use mathlib.Core.Path.{subst}
use bank_system.Model.{Uuid, Account, TransferRequest, TransferResponse, debit}
use bank_system.External.{ok, Env, Decimals, Redis}
use bank_system.Store.Db.{Db, has_entry, transaction_violation}
use bank_system.Store.Statements.{find_account}
use bank_system.Transfer.{World, lock_order, transfer_funds}
use bank_system.Transfer.Locks.{lock_order_elim}
use bank_system.Transfer.Effect.{IsPosted, posted_entry}
use bank_system.Transfer.Outcome.{transfer_funds-IsPosted}
use bank_system.Concurrent.{
  opened, starts, take_snapshot, Phase, waiting_first, waiting_second, locked, checked, writing,
  returned, Thread, System, set_phase, first_of, second_of, holds, is_writing, IsFree, Passes,
  row_of, commit_rows, meets_ids, Move, takes_first, takes_second, passes, inserts, writes, commits,
  moves, Run, here, onward, begun,
}
use bank_system.Concurrent.Runs.{elsewhere}
use bank_system.Prelude.Below.{true-false}

-- The first transaction is so far, the others have not moved, and nothing is committed yet.
pub record IsAt (p : Phase) (db : Db) (s : System) : Type 0 where
  pub place : s.phase 0 ≡ p
  pub others : (j : ℕ) → j ≢ 0 → s.phase j ≡ opened
  pub snapshot : s.seen 0 ≡ db
  pub free : s.excluded 0 ≡ false
  pub tables : s.db ≡ db

after-IsAt : (p q : Phase) (db : Db) (s : System) → IsAt p db s → IsAt q db (set_phase 0 q s)
after-IsAt p q db s at = record {
  place = refl;
  others = λ j other. elsewhere 0 j q s other ∙ at.others j other;
  snapshot = at.snapshot;
  free = at.free;
  tables = at.tables;
}

-- The transaction of a transfer that has posted its rows.
module _ (env : Env) (d : Decimals) (req : TransferRequest d.Decimal) (txn_id : Uuid)
    (before after : Db) (posted : IsPosted d req txn_id before after) where
  abbrev thread : ℕ → Thread d
  thread i = record {
    req = req;
    txn_id = txn_id;
    debit_id = posted.debit_id;
    credit_id = posted.credit_id;
    now = posted.now;
  }

  -- It comes to its end with the tables as they are to be.
  abbrev Ends : System → Type 0
  Ends s = (t : System) × (Run env d thread 1 s t × ((t.db ≡ after) × (t.phase 0 ≡ returned)))

  moves_on : {s t : System} → Move env d thread 0 s t → Ends t → Ends s
  moves_on move (u, (run, end_)) = (u, (onward (moves 0 (omega arith) move) run, end_))

  all-IsFree :
      (p : Phase) (db : Db) (s : System) (id : Uuid) → IsAt p db s → IsFree env d thread 0 id s
  all-IsFree p db s id at j other = ap (λ q. holds env d thread j q id) (at.others j other)

  abbrev AreFound : Uuid × Uuid → Type 0
  AreFound (one, other) =
      ((a : Account) × (find_account one before ≡ some a))
      × ((a : Account) × (find_account other before ≡ some a))

  are_found : AreFound (lock_order env req.from_account_id req.to_account_id)
  are_found =
      lock_order_elim env AreFound req.from_account_id req.to_account_id
        ((posted.sender, posted.sender_found), (posted.receiver, posted.receiver_found))
        ((posted.receiver, posted.receiver_found), (posted.sender, posted.sender_found))

  meets : (k : ℕ) → meets_ids env d thread 0 k before ≡ true
  meets k = meets_of _ _ _ (sym new_entry ∙ posted.credit_insertable) posted.debit_insertable k
    where
      same_last : (b : Bool) (k m : ℕ) → (b || (k == m || false)) ≡ (b || m == k)
      same_last b k m = ground arith

      new_entry :
          has_entry posted.credit_id (
            before.ledger
            ++ posted_entry d req txn_id posted.now posted.debit_id req.from_account_id debit ∷ [])
          ≡ (has_entry posted.credit_id before.ledger || posted.credit_id == posted.debit_id)
      new_entry =
          any-append (λ e. e.id == posted.credit_id) before.ledger _
          ∙ same_last _ posted.debit_id posted.credit_id

      meets_of :
          (b c e : Bool)
          → (c || e) ≡ false
          → b ≡ false
          → (k : ℕ) → (if k == 0 then not b else if k == 1 then not c && not e else true) ≡ true
      meets_of b c e none_there none_here k = ground arith

  module _ (s : System) where
    at_end : IsAt (writing 3) before s → Ends s
    at_end at =
        moves_on (commits at.place at.free)
          (_, (here, (ap (commit_rows env d thread 0) at.tables ∙ sym posted.rows, refl)))

  at_writing : (k m : ℕ) → k + m ≡ 3 → (s : System) → IsAt (writing k) before s → Ends s
  at_writing k zero all s at = at_end s (subst (λ x. IsAt (writing x) before s) (omega arith) at)
  at_writing k (suc m) all s at =
      moves_on
        (writes k at.place (omega arith) (ap (meets_ids env d thread 0 k) at.tables ∙ meets k))
        (at_writing (suc k) m (omega arith) (set_phase 0 (writing (suc k)) s)
          (after-IsAt (writing k) (writing (suc k)) before s at))

  at_checked : (s : System) → IsAt checked before s → Ends s
  at_checked s at =
      moves_on
        (inserts at.place
          (λ j other writes_j same. true-false (sym writes_j ∙ ap is_writing (at.others j other)))
          (ap (λ db. transaction_violation db (row_of env d thread 0)) at.tables
            ∙ posted.insertable))
        (at_writing 0 3 refl (set_phase 0 (writing 0) s)
          (after-IsAt checked (writing 0) before s at))

  passing : Passes env d thread 0 before
  passing = record {
    sender = posted.sender;
    receiver = posted.receiver;
    sender_found = posted.sender_found;
    receiver_found = posted.receiver_found;
    sender_active = posted.sender_active;
    receiver_active = posted.receiver_active;
    covered = posted.covered;
  }

  at_locked : (s : System) → IsAt locked before s → Ends s
  at_locked s at =
      moves_on (passes at.place (subst (Passes env d thread 0) (sym at.snapshot) passing))
        (at_checked (set_phase 0 checked s) (after-IsAt locked checked before s at))

  at_second : (s : System) → IsAt waiting_second before s → Ends s
  at_second s at =
      let (a, found) = are_found.1 in
      moves_on
        (takes_second a at.place (ap (find_account (second_of env d thread 0)) at.snapshot ∙ found)
          (all-IsFree waiting_second before s (second_of env d thread 0) at))
        (at_locked (set_phase 0 locked s) (after-IsAt waiting_second locked before s at))

  at_first : (s : System) → IsAt waiting_first before s → Ends s
  at_first s at =
      let (a, found) = are_found.0 in
      moves_on
        (takes_first a at.place (ap (find_account (first_of env d thread 0)) at.snapshot ∙ found)
          (all-IsFree waiting_first before s (first_of env d thread 0) at))
        (at_second (set_phase 0 waiting_second s)
          (after-IsAt waiting_first waiting_second before s at))

  pub posted_alone : Ends (begun before)
  posted_alone = moves_on (starts refl) (
      at_first (take_snapshot 0 (begun before)) (record {
        place = refl;
        others = λ j other. elsewhere 0 j waiting_first (begun before) other;
        snapshot = refl;
        free = refl;
        tables = refl;
      }))

module _ (r : Redis) (env : Env) (d : Decimals) (req : TransferRequest d.Decimal) where
  -- A transfer that reports success is a run of one transaction in the steps of transfers in
  -- flight, with the request and the id of the response, from the same tables to the same tables.
  pub transfer_funds_alone :
      (w : World r.State) {resp : TransferResponse} {w' : World r.State}
      → transfer_funds r env d req w ≡ (ok resp, w')
      → (threads : ℕ → Thread d) × (((threads 0).req ≡ req)
          × (((threads 0).txn_id ≡ resp.transaction_id)
              × ((t : System) × (Run env d threads 1 (begun w.session.db) t
                    × ((t.db ≡ w'.session.db) × (t.phase 0 ≡ returned))))))
  transfer_funds_alone w {resp} h =
      let posted = (transfer_funds-IsPosted r env d req w h).0 in
      (
        thread env d req resp.transaction_id _ _ posted,
        (refl, (refl, posted_alone env d req resp.transaction_id _ _ posted)),
      )
