-- ===== src/Concurrent/Steps.antt =====
-- The steps, one by one.
use bank_system.Prelude.{
  refl, if◌then◌else◌, ℕ, suc, ◌≡◌, ◌≢◌, sym, ap, ◌∙◌, ◌≤◌, ◌<◌, inl, inr, Bool, true, false, ◌==◌,
  none, arith, Bool-cases,
}
use mathlib.Core.Path.{subst}
use bank_system.Prelude.Int.{int_laws}
use bank_system.Model.{Uuid}
use bank_system.External.{Env, Decimals, DecimalLaws}
use bank_system.Store.Db.{Db, transaction_violation}
use bank_system.Store.Consistency.{IsBookable-of_violation}
use bank_system.Concurrent.{
  Phase, opened, is_reading, take_snapshot, starts, is_aborted, waiting_first, waiting_second,
  locked, checked, writing, returned, is_writing, is_past_checks, Thread, System, set_phase,
  first_of, second_of, holds, row_of, Passes, IsFree, IsUnrivalled, Move, takes_first, misses_first,
  takes_second, misses_second, passes, is_refused, inserts, violates, writes, draws_twice, commits,
  Step, moves, fails,
}
use bank_system.Concurrent.Commit.{commit-Inv}
use bank_system.Concurrent.Invariant.{
  IsPayable, IsCovered, IsGrown, Inv, from_to_cases, IsAllowed, allowed-Inv,
}

module _ (env : Env) (d : Decimals) (threads : ℕ → Thread d) where
  module _ (i : ℕ) (s : System) (h : Inv env d threads s) where
    -- A lock that a transaction has is no other's.
    held_alone :
        (j : ℕ) (id : Uuid)
        → j ≢ i
        → holds env d threads i (s.phase i) id ≡ true
        → holds env d threads j (s.phase j) id ≡ false
    held_alone j id other held = elim (Bool-cases (holds env d threads j (s.phase j) id)) [
      | inl both ↦ absurd (other (h.exclusive j i id both held))
      | inr free ↦ free
    ]

    abbrev MayGo : Phase → Type 0
    MayGo p = IsAllowed env d threads i p s s.db s.seen s.excluded

    set_phase-Inv : (p : Phase) → MayGo p → Inv env d threads (set_phase i p s)
    set_phase-Inv p a =
        allowed-Inv env d threads i p s s.db s.seen s.excluded s.stale h a (λ j _. h.covered j)
          (λ j _. h.grown j) (λ j _. h.payable j)

    over_allowed :
        (db : Db) (excluded : ℕ → Bool) → IsAllowed env d threads i returned s db s.seen excluded
    over_allowed db excluded = record {
      alone = λ j id other held. absurd (cc);
      covered = λ e. absurd (cc);
      grown = λ e. absurd (cc);
      payable = λ e. absurd (cc);
      rivals = λ e. absurd (cc);
      few = λ k e. absurd (cc);
    }

    rolled_back : Inv env d threads (set_phase i returned s)
    rolled_back = set_phase-Inv returned (over_allowed s.db s.excluded)

    -- A snapshot that is new has what is committed.
    snapshot-Inv : Inv env d threads (take_snapshot i s)
    snapshot-Inv =
        allowed-Inv env d threads i waiting_first s s.db after.seen after.excluded after.stale h
          (record {
            alone = λ j id other held. absurd (cc);
            covered = λ e. absurd (cc);
            grown = λ _ _.
                subst (λ db. IsGrown env d threads i db s.db) (sym (chosen i s.db (s.seen i)))
                  (omega int_laws);
            payable = λ e. absurd (cc);
            rivals = λ e. absurd (cc);
            few = λ k e. absurd (cc);
          })
          (λ j other past.
            subst (IsCovered env d threads j) (sym (passed_over i j s.db (s.seen j) other))
              (h.covered j past))
          (λ j other reading free.
            subst (λ db. IsGrown env d threads j db s.db)
              (sym (passed_over i j s.db (s.seen j) other))
              (h.grown j reading (sym (passed_over i j false (s.excluded j) other) ∙ free)))
          (λ j _. h.payable j)
      where
        after : System
        after = take_snapshot i s

        chosen : {A : Type 0} (k : ℕ) (x y : A) → (if k == k then x else y) ≡ x
        chosen k x y = ground arith

        passed_over : {A : Type 0} (k m : ℕ) (x y : A) → m ≢ k → (if k == m then x else y) ≡ y
        passed_over k m x y other = ground arith

    first_allowed :
        s.phase i ≡ waiting_first
        → IsFree env d threads i (first_of env d threads i) s
        → MayGo waiting_second
    first_allowed e free = record {
      alone = λ j id other held.
          let e : first_of env d threads i ≡ id = ground arith in
          subst (λ x. holds env d threads j (s.phase j) x ≡ false) e (free j other);
      covered = λ e. absurd (cc);
      grown = λ _. h.grown i (ap is_reading e);
      payable = λ e. absurd (cc);
      rivals = λ e. absurd (cc);
      few = λ k e. absurd (cc);
    }

    second_allowed :
        s.phase i ≡ waiting_second
        → IsFree env d threads i (second_of env d threads i) s
        → MayGo locked
    second_allowed e free = record {
      alone = λ j id other held. elim (from_to_cases env d threads i id held) [
        | inl is_first ↦ held_alone j id other (ap (λ p. holds env d threads i p id) e ∙ is_first)
        | inr is_second ↦
            let same : second_of env d threads i ≡ id = ground arith in
            subst (λ x. holds env d threads j (s.phase j) x ≡ false) same (free j other)
      ];
      covered = λ e. absurd (cc);
      grown = λ _. h.grown i (ap is_reading e);
      payable = λ e. absurd (cc);
      rivals = λ e. absurd (cc);
      few = λ k e. absurd (cc);
    }

    checked_allowed :
        DecimalLaws d → s.phase i ≡ locked → Passes env d threads i (s.seen i) → MayGo checked
    checked_allowed laws e p = record {
      alone =
          λ j id other held. held_alone j id other (ap (λ p. holds env d threads i p id) e ∙ held);
      covered = λ _.
          rw laws.to_numeric-from_numeric at
            (laws.to_numeric_mono (threads i).req.amount _ p.covered);
      grown = λ _. h.grown i (ap is_reading e);
      payable = λ e. absurd (cc);
      rivals = λ e. absurd (cc);
      few = λ k e. absurd (cc);
    }

    past_reading : (q : Phase) → is_past_checks q ≡ true → is_reading q ≡ true
    past_reading checked e = refl
    past_reading (writing k) e = refl
    past_reading opened e = absurd (cc)
    past_reading waiting_first e = absurd (cc)
    past_reading waiting_second e = absurd (cc)
    past_reading locked e = absurd (cc)
    past_reading returned e = absurd (cc)

    writing_allowed :
        (k : ℕ)
        → is_past_checks (s.phase i) ≡ true
        → ((id : Uuid)
            → holds env d threads i (writing k) id ≡ true
            → holds env d threads i (s.phase i) id ≡ true)
        → IsPayable env d threads i s.db
        → IsUnrivalled env d threads i s
        → k ≤ 3
        → MayGo (writing k)
    writing_allowed k past same payable unrivalled few = record {
      alone = λ j id other held. held_alone j id other (same id held);
      covered = λ _. h.covered i past;
      grown = λ _. h.grown i (past_reading (s.phase i) past);
      payable = λ _. payable;
      rivals = λ _. unrivalled;
      few = λ m e. let same_k : k ≡ m = ground arith in subst (λ x. x ≤ 3) same_k few;
    }

    inserted_allowed :
        s.phase i ≡ checked
        → IsUnrivalled env d threads i s
        → transaction_violation s.db (row_of env d threads i) ≡ none
        → MayGo (writing 0)
    inserted_allowed e unrivalled fine =
        let b = IsBookable-of_violation s.db (row_of env d threads i) fine in
        writing_allowed 0 (ap is_past_checks e)
          (λ id held. ap (λ p. holds env d threads i p id) e ∙ held)
          (record { positive = b.positive; differ = b.differ; fresh_key = b.fresh_key }) unrivalled
          (omega arith)

    written_allowed : (k : ℕ) → s.phase i ≡ writing k → k < 3 → MayGo (writing (suc k))
    written_allowed k e few =
        writing_allowed (suc k) (ap is_past_checks e)
          (λ id held. ap (λ p. holds env d threads i p id) e ∙ held) (h.payable i (ap is_writing e))
          (λ j other wj same. other (h.unrivalled j i wj (ap is_writing e) same)) (omega arith)

    Move-Inv : DecimalLaws d → {t : System} → Move env d threads i s t → Inv env d threads t
    Move-Inv laws (takes_first a e found free) = set_phase-Inv waiting_second (first_allowed e free)
    Move-Inv laws (misses_first e lost) = rolled_back
    Move-Inv laws (takes_second a e found free) = set_phase-Inv locked (second_allowed e free)
    Move-Inv laws (misses_second e lost) = rolled_back
    Move-Inv laws (passes e p) = set_phase-Inv checked (checked_allowed laws e p)
    Move-Inv laws (is_refused e p) = rolled_back
    Move-Inv laws (inserts e unrivalled fine) =
        set_phase-Inv (writing 0) (inserted_allowed e unrivalled fine)
    Move-Inv laws (violates e broken) = rolled_back
    Move-Inv laws (writes k e few fine) = set_phase-Inv (writing (suc k)) (written_allowed k e few)
    Move-Inv laws (draws_twice k e twice) = rolled_back
    Move-Inv laws (commits e free) = commit-Inv env d threads i s h (over_allowed _ _) e
    Move-Inv laws (starts e) = snapshot-Inv
    Move-Inv laws (is_aborted reading excluded) = rolled_back

  pub Step-Inv :
      DecimalLaws d
      → {n : ℕ} {s t : System} → Step env d threads n s t
      → Inv env d threads s
      → Inv env d threads t
  Step-Inv laws {s} (moves i few move) h = Move-Inv i s h laws move
  Step-Inv laws {s} (fails i few open_) h = rolled_back i s h
