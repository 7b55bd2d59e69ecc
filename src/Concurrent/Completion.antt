-- ===== src/Concurrent/Completion.antt =====
-- Transfers in flight come to their ends.
use bank_system.Prelude.{
  ◌≤◌, ℕ, zero, suc, ◌+◌, ◌*◌, ◌≡◌, refl, ◌<◌, inl, inr, Bool, true, false, not, ◌&&◌, Bool-cases,
  arith,
}
use bank_system.Prelude.Below.{search_below}
use bank_system.Model.{Uuid}
use bank_system.External.{Env, Decimals, DecimalLaws}
use bank_system.Store.Db.{Db}
use bank_system.Concurrent.{is_over, Thread, System, moves, fails, Run, here, onward, begun}
use bank_system.Concurrent.Invariant.{Inv}
use bank_system.Concurrent.Steps.{Step-Inv}
use bank_system.Concurrent.Safety.{begun-Inv}
use bank_system.Concurrent.Runs.{IsIdle, Step-IsIdle, Run-Inv, Run-IsIdle}
use bank_system.Concurrent.Deadlock.{open_moves}
use bank_system.Concurrent.Progress.{CanMove, is_clean}
use bank_system.Concurrent.Bound.{
  steps_of, steps_of_bounded, total, total_bounded, rank_bounded, Move-raises,
}

not-false : (b : Bool) → not b ≡ false → b ≡ true
not-false b h = ground arith

not-true : (b : Bool) → not b ≡ true → b ≡ false
not-true b h = ground arith

module _ (env : Env) (d : Decimals) (threads : ℕ → Thread d) where
  -- No transaction of a run is rolled back from outside, and none is committed that has read what a
  -- commit since has written.
  abbrev pub is_undisturbed : {n : ℕ} {s t : System} → Run env d threads n s t → Bool
  is_undisturbed here = true
  is_undisturbed (onward {s} (moves i less move) rest) =
      is_clean env d threads i s move && is_undisturbed rest
  is_undisturbed (onward (fails i less open_) rest) = false

  module _ (distinct : (a b : Uuid) → env.uuid_string a ≡ env.uuid_string b → a ≡ b)
      (laws : DecimalLaws d) (n : ℕ) where
    -- A run to the end of all.
    abbrev pub Completion : System → Type 0
    Completion s =
        (t : System) × ((run : Run env d threads n s t) × ((is_undisturbed run ≡ true)
            × ((i : ℕ) → i < n → is_over (t.phase i) ≡ true)))

    completes :
        (left : ℕ) (s : System)
        → Inv env d threads s
        → IsIdle n s
        → 9 * n < total n s.phase + left
        → Completion s
    completes zero s h idle enough =
        let bound =
          total_bounded n s.phase (λ j. rank_bounded env d threads s h j (s.phase j) refl) in
        absurd (omega arith)
    completes (suc left) s h idle enough = elim (search_below (λ i. not (is_over (s.phase i))) n) [
      | inr none_open ↦
          (s, (here, (refl, λ i less. not-false (is_over (s.phase i)) (none_open i less))))
      | inl (i, (less, open_)) ↦
          let (j, (j_less, (t, (move, clean)))) =
            open_moves env d threads distinct n s h idle i less
              (not-true (is_over (s.phase i)) open_) in
          let raised = Move-raises env d threads s h n j j_less move in
          let (u, (run, (undisturbed, over))) =
            completes left t (Step-Inv env d threads laws (moves j j_less move) h)
              (Step-IsIdle env d threads (moves j j_less move) idle) (omega arith) in
          (u, (onward (moves j j_less move) run, (ground arith, over)))
    ]

    -- Transfers in flight can always come to their ends, if UUIDs have different texts: from every
    -- point that so many of them come to, whatever has failed on the way, there are next steps of
    -- their own that lead to a point where all are over. On this way nothing fails from outside, the
    -- database rolls back only transactions that have read what a commit since has written, or that
    -- a commit has excluded, and it commits none of those.
    pub run_completes :
        (db : Db) {s : System}
        → Run env d threads n (begun db) s
        → (t : System) × ((run : Run env d threads n s t) × ((is_undisturbed run ≡ true)
              × ((i : ℕ) → i < n → is_over (t.phase i) ≡ true)))
    run_completes db {s} run =
        completes (suc (9 * n)) s (Run-Inv env d threads laws run (begun-Inv env d threads db))
          (Run-IsIdle env d threads run (λ j beyond. refl)) (omega arith)

    -- Transfers in flight come to their ends, if UUIDs have different texts: whichever steps so many
    -- of them make, there are at most nine for each, and where none of them can move any more, all
    -- are over. So they never wait for one another for good.
    pub run_ends :
        (db : Db) {t : System} (run : Run env d threads n (begun db) t)
        → (steps_of env d threads run ≤ 9 * n)
          × (((j : ℕ) → j < n → ¬ CanMove env d threads j t)
              → (i : ℕ) → i < n
              → is_over (t.phase i) ≡ true)
    run_ends db {t} run = (
      steps_of_bounded env d threads laws n db run,
      λ stuck i less. elim (Bool-cases (is_over (t.phase i))) [
        | inl over ↦ over
        | inr open_ ↦
            let (j, (j_less, (t', (move, clean)))) =
              open_moves env d threads distinct n t
                (Run-Inv env d threads laws run (begun-Inv env d threads db))
                (Run-IsIdle env d threads run (λ j beyond. refl)) i less open_ in
            absurd (stuck j j_less (t', move))
      ],
    )
