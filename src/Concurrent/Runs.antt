-- ===== src/Concurrent/Runs.antt =====
-- What runs keep.
use bank_system.Prelude.{ℕ, suc, ◌≡◌, ◌≢◌, ◌∙◌, ◌≤◌, arith}
use bank_system.External.{Env, Decimals, DecimalLaws}
use bank_system.Concurrent.{
  opened, starts, is_aborted, Phase, waiting_first, waiting_second, locked, checked, writing,
  returned, Thread, System, set_phase, Move, takes_first, misses_first, takes_second, misses_second,
  passes, is_refused, inserts, violates, writes, draws_twice, commits, Step, moves, fails, Run,
  here, onward,
}
use bank_system.Concurrent.Invariant.{Inv}
use bank_system.Concurrent.Steps.{Step-Inv}

-- The transactions from a number on have not moved.
abbrev pub IsIdle : ℕ → System → Type 0
IsIdle n s = (j : ℕ) → n ≤ j → s.phase j ≡ opened

pub elsewhere : (i j : ℕ) (p : Phase) (s : System) → j ≢ i → (set_phase i p s).phase j ≡ s.phase j
elsewhere i j p s other = ground arith

module _ (env : Env) (d : Decimals) (threads : ℕ → Thread d) where
  -- The transactions that a step is not about stay where they are.
  module _ (s : System) (i j : ℕ) (other : j ≢ i) where
    pub Move-elsewhere : {t : System} → Move env d threads i s t → t.phase j ≡ s.phase j
    Move-elsewhere (takes_first a e found free) = elsewhere i j waiting_second s other
    Move-elsewhere (misses_first e lost) = elsewhere i j returned s other
    Move-elsewhere (takes_second a e found free) = elsewhere i j locked s other
    Move-elsewhere (misses_second e lost) = elsewhere i j returned s other
    Move-elsewhere (passes e p) = elsewhere i j checked s other
    Move-elsewhere (is_refused e p) = elsewhere i j returned s other
    Move-elsewhere (inserts e unrivalled fine) = elsewhere i j (writing 0) s other
    Move-elsewhere (violates e broken) = elsewhere i j returned s other
    Move-elsewhere (writes k e few fine) = elsewhere i j (writing (suc k)) s other
    Move-elsewhere (draws_twice k e twice) = elsewhere i j returned s other
    Move-elsewhere (starts e) = elsewhere i j waiting_first s other
    Move-elsewhere (is_aborted reading excluded) = elsewhere i j returned s other
    Move-elsewhere (commits e free) = elsewhere i j returned s other

  pub Step-IsIdle : {n : ℕ} {s t : System} → Step env d threads n s t → IsIdle n s → IsIdle n t
  Step-IsIdle {s} (moves i less move) idle j beyond =
      Move-elsewhere s i j (omega arith) move ∙ idle j beyond
  Step-IsIdle {s} (fails i less open_) idle j beyond =
      elsewhere i j returned s (omega arith) ∙ idle j beyond

  pub Run-IsIdle : {n : ℕ} {s t : System} → Run env d threads n s t → IsIdle n s → IsIdle n t
  Run-IsIdle here idle = idle
  Run-IsIdle (onward step rest) idle = Run-IsIdle rest (Step-IsIdle step idle)

  module _ (laws : DecimalLaws d) where
    pub Run-Inv :
        {n : ℕ} {s t : System} → Run env d threads n s t → Inv env d threads s → Inv env d threads t
    Run-Inv here h = h
    Run-Inv (onward step rest) h = Run-Inv rest (Step-Inv env d threads laws step h)
