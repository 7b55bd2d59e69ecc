-- ===== src/Concurrent/Tests.antt =====
-- Two transfers in flight between the same accounts, one in each direction.
use bank_system.Prelude.{true, ℕ, zero, suc, ◌*◌, ◌≡◌, refl, ap, ◌≤◌, ◌<◌, arith, List}
use bank_system.Prelude.Int.{pos, ◌+ℤ◌, ◌-ℤ◌}
use bank_system.Model.{active}
use bank_system.External.{Env}
use bank_system.Store.Db.{balance_of, transaction_violation}
use bank_system.Store.Balance.{IsSolvent}
use bank_system.Transfer.{lock_order}
use bank_system.Bank.{bank_of, History}
use bank_system.Concurrent.Progress.{CanMove}
use bank_system.Concurrent.{
  opened, starts, is_aborted, take_snapshot, commit_system, is_over, Thread, System, set_phase,
  begun, waiting_second, locked, checked, writing, returned, holds, IsFree, IsUnrivalled, Passes,
  takes_first, takes_second, passes, inserts, writes, commits, moves, Run, here, onward,
}
use bank_system.Concurrent.Safety.{successes, IsAmong, run_serial}
use bank_system.Concurrent.Completion.{is_undisturbed, run_completes, run_ends}
use bank_system.Concurrent.Bound.{steps_of}
use bank_system.Fixtures.{five_places, five_places-laws, calm, tables, request, account}
use bank_system.Fixtures.Limiter.{strokes, exact-laws}

-- UUIDs with different texts.
abbrev named : Env
named = record calm { uuid_string = strokes }

abbrev two_threads : ℕ → Thread five_places
two_threads zero = record { req = request; txn_id = 100; debit_id = 101; credit_id = 102; now = 0 }
two_threads (suc i) = record {
  req = record {
    from_account_id = 3;
    to_account_id = 2;
    amount = pos 1_000_000;
    idempotency_key = 2;
  };
  txn_id = 200;
  debit_id = 201;
  credit_id = 202;
  now = 1;
}

-- Both have begun, with the same snapshot.
abbrev both_started : System
both_started = take_snapshot 1 (take_snapshot 0 (begun tables))

-- The first has taken its first lock.
abbrev taken : System
taken = set_phase 0 waiting_second both_started

IsFree-first : IsFree named five_places two_threads 0 2 both_started
IsFree-first zero other = absurd (other refl)
IsFree-first (suc zero) other = refl
IsFree-first (suc (suc j)) other =
    ap (λ p. holds named five_places two_threads (suc (suc j)) p 2) (unmoved j)
  where
    unmoved : (j : ℕ) → both_started.phase (suc (suc j)) ≡ opened
    unmoved j = ground arith

to_taken :
    {t : System}
    → Run named five_places two_threads 2 taken t
    → Run named five_places two_threads 2 (begun tables) t
unfolding lock_order
to_taken rest = onward (moves 0 (omega arith) (starts refl)) (
    onward (moves 1 (omega arith) (starts refl))
      (onward (moves 0 (omega arith) (takes_first _ refl refl IsFree-first)) rest))

-- The second, whose first lock is the same row, waits; both come to their ends.
run_completes_example :
    (t : System) × ((run : Run named five_places two_threads 2 taken t) × ((is_undisturbed named
            five_places two_threads run
          ≡ true)
        × ((i : ℕ) → i < 2 → is_over (t.phase i) ≡ true)))
run_completes_example =
    run_completes named five_places two_threads exact-laws.format_int_injective five_places-laws 2
      tables (to_taken here)

abbrev checked_one : System
checked_one = set_phase 0 checked (set_phase 0 locked taken)

abbrev written_one : System
written_one =
    set_phase 0 (writing 3)
      (set_phase 0 (writing 2) (set_phase 0 (writing 1) (set_phase 0 (writing 0) checked_one)))

-- The first has come to its end, which excludes the second.
abbrev committed_one : System
committed_one = commit_system named five_places two_threads 0 written_one

-- The second has been granted its first lock, and been rolled back by the database.
abbrev both_over : System
both_over = set_phase 1 returned (set_phase 1 waiting_second committed_one)

Passes-first : Passes named five_places two_threads 0 tables
unfolding balance_of ◌+ℤ◌ ◌-ℤ◌
Passes-first = record {
  sender = account 2 active;
  receiver = account 3 active;
  sender_found = refl;
  receiver_found = refl;
  sender_active = refl;
  receiver_active = refl;
  covered = refl;
}

IsFree-second : IsFree named five_places two_threads 0 3 taken
IsFree-second zero other = absurd (other refl)
IsFree-second (suc zero) other = refl
IsFree-second (suc (suc j)) other =
    ap (λ p. holds named five_places two_threads (suc (suc j)) p 3) (unmoved j)
  where
    unmoved : (j : ℕ) → taken.phase (suc (suc j)) ≡ opened
    unmoved j = ground arith

IsUnrivalled-first : IsUnrivalled named five_places two_threads 0 checked_one
IsUnrivalled-first zero other writes_it same = other refl
IsUnrivalled-first (suc j) other writes_it same = cc

IsFree-committed : IsFree named five_places two_threads 1 2 committed_one
IsFree-committed zero other = refl
IsFree-committed (suc zero) other = absurd (other refl)
IsFree-committed (suc (suc j)) other =
    ap (λ p. holds named five_places two_threads (suc (suc j)) p 2) (unmoved j)
  where
    unmoved : (j : ℕ) → committed_one.phase (suc (suc j)) ≡ opened
    unmoved j = ground arith

Run-both_over : Run named five_places two_threads 2 (begun tables) both_over
unfolding lock_order transaction_violation
Run-both_over = to_taken (
    onward (moves 0 (omega arith) (takes_second _ refl refl IsFree-second)) (
      onward (moves 0 (omega arith) (passes refl Passes-first)) (
        onward (moves 0 (omega arith) (inserts refl IsUnrivalled-first refl)) (
          onward (moves 0 (omega arith) (writes 0 refl (omega arith) refl)) (
            onward (moves 0 (omega arith) (writes 1 refl (omega arith) refl)) (
              onward (moves 0 (omega arith) (writes 2 refl (omega arith) refl)) (
                onward (moves 0 (omega arith) (commits refl refl)) (
                  onward (moves 1 (omega arith) (takes_first _ refl refl IsFree-committed))
                    (onward (moves 1 (omega arith) (is_aborted refl refl)) here)))))))))

run_serial_example :
    (IsSolvent tables → IsSolvent both_over.db)
    × ((l : List ℕ) × (IsAmong named five_places two_threads 2 l
          × History five_places
              (successes named five_places two_threads l)
              (bank_of tables)
              (bank_of both_over.db)))
run_serial_example =
    run_serial named five_places two_threads five_places-laws 2 tables Run-both_over

run_ends_example :
    (steps_of named five_places two_threads Run-both_over ≤ 9 * 2)
    × (((j : ℕ) → j < 2 → ¬ CanMove named five_places two_threads j both_over)
        → (i : ℕ) → i < 2
        → is_over (both_over.phase i) ≡ true)
run_ends_example =
    run_ends named five_places two_threads exact-laws.format_int_injective five_places-laws 2 tables
      Run-both_over
