-- ===== src/Concurrent/Bound.antt =====
-- How long transfers in flight can go on.
use bank_system.Prelude.{
  true, ℕ, zero, suc, ◌+◌, ◌*◌, ◌≡◌, ◌≢◌, refl, sym, ap, ◌≤◌, ◌<◌, inl, inr, arith, false,
}
use mathlib.Core.Path.{subst}
use bank_system.Prelude.Below.{last_cases}
use bank_system.External.{Env, Decimals, DecimalLaws}
use bank_system.Store.Db.{Db}
use bank_system.Concurrent.{
  opened, starts, is_aborted, is_reading, Phase, waiting_first, waiting_second, locked, checked,
  writing, returned, is_over, Thread, System, set_phase, Move, takes_first, misses_first,
  takes_second, misses_second, passes, is_refused, inserts, violates, writes, draws_twice, commits,
  Step, moves, fails, Run, here, onward, begun,
}
use bank_system.Concurrent.Invariant.{Inv}
use bank_system.Concurrent.Steps.{Step-Inv}
use bank_system.Concurrent.Safety.{begun-Inv}
use bank_system.Concurrent.Runs.{elsewhere}

-- The statements that a transaction has behind it.
abbrev pub rank : Phase → ℕ
rank opened = 0
rank waiting_first = 1
rank waiting_second = 2
rank locked = 3
rank checked = 4
rank (writing k) = 5 + k
rank returned = 9

abbrev pub total : ℕ → (ℕ → Phase) → ℕ
total zero f = 0
total (suc n) f = total n f + rank (f n)

total_same : (n : ℕ) (f g : ℕ → Phase) → ((j : ℕ) → j < n → f j ≡ g j) → total n f ≡ total n g
total_same zero f g same = refl
total_same (suc n) f g same =
    rw (total_same n f g (λ j less. same j (omega arith)), same n (omega arith)) refl

total_raised :
    (n i : ℕ) (f g : ℕ → Phase)
    → i < n
    → rank (f i) < rank (g i)
    → ((j : ℕ) → j ≢ i → g j ≡ f j)
    → total n f < total n g
total_raised zero i f g less raised others = absurd (omega arith)
total_raised (suc n) i f g less raised others = elim (last_cases i n less) [
  | inl e ↦
      let same : total n f ≡ total n g =
        total_same n f g (λ j below. sym (others j (omega arith))) in
      let last : rank (f n) < rank (g n) = subst (λ j. rank (f j) < rank (g j)) (sym e) raised in
      omega arith
  | inr below ↦
      let rest = total_raised n i f g below raised others in
      let last : rank (g n) ≡ rank (f n) = ap rank (others n (omega arith)) in omega arith
]

pub total_bounded : (n : ℕ) (f : ℕ → Phase) → ((j : ℕ) → rank (f j) ≤ 9) → total n f ≤ 9 * n
total_bounded zero f bounded = omega arith
total_bounded (suc n) f bounded =
    let rest = total_bounded n f bounded in let last = bounded n in omega arith

module _ (env : Env) (d : Decimals) (threads : ℕ → Thread d) where
  abbrev pub steps_of : {n : ℕ} {s t : System} → Run env d threads n s t → ℕ
  steps_of here = 0
  steps_of (onward step rest) = suc (steps_of rest)

  module _ (s : System) (h : Inv env d threads s) where
    rank_below : (i : ℕ) (p : Phase) → s.phase i ≡ p → is_over p ≡ false → rank p < 9
    rank_below i opened e open_ = omega arith
    rank_below i waiting_first e open_ = omega arith
    rank_below i waiting_second e open_ = omega arith
    rank_below i locked e open_ = omega arith
    rank_below i checked e open_ = omega arith
    rank_below i (writing k) e open_ = let few = h.few i k e in omega arith
    rank_below i returned e open_ = absurd (cc)

    pub rank_bounded : (i : ℕ) (p : Phase) → s.phase i ≡ p → rank p ≤ 9
    rank_bounded i opened e = omega arith
    rank_bounded i waiting_first e = omega arith
    rank_bounded i waiting_second e = omega arith
    rank_bounded i locked e = omega arith
    rank_bounded i checked e = omega arith
    rank_bounded i (writing k) e = let few = h.few i k e in omega arith
    rank_bounded i returned e = omega arith

    reading_open : (p : Phase) → is_reading p ≡ true → is_over p ≡ false
    reading_open returned e = absurd (cc)
    reading_open opened e = refl
    reading_open waiting_first e = refl
    reading_open waiting_second e = refl
    reading_open locked e = refl
    reading_open checked e = refl
    reading_open (writing k) e = refl

    -- A transaction that goes on raises the sum.
    goes_on :
        (n i : ℕ) (p q : Phase)
        → i < n
        → s.phase i ≡ p
        → rank p < rank q
        → total n s.phase < total n (set_phase i q s).phase
    goes_on n i p q less e raised =
        total_raised n i s.phase (set_phase i q s).phase less
          (subst (λ x. rank x < rank ((set_phase i q s).phase i)) (sym e)
            (subst (λ x. rank p < rank x) (sym (at_itself i q)) raised))
          (λ j other. elsewhere i j q s other)
      where
        at_itself : (i : ℕ) (q : Phase) → (set_phase i q s).phase i ≡ q
        at_itself i q = ground arith

    module _ (n i : ℕ) (less : i < n) where
      pub Move-raises : {t : System} → Move env d threads i s t → total n s.phase < total n t.phase
      Move-raises (takes_first a e found free) =
          goes_on n i waiting_first waiting_second less e (omega arith)
      Move-raises (misses_first e lost) = goes_on n i waiting_first returned less e (omega arith)
      Move-raises (takes_second a e found free) =
          goes_on n i waiting_second locked less e (omega arith)
      Move-raises (misses_second e lost) = goes_on n i waiting_second returned less e (omega arith)
      Move-raises (passes e p) = goes_on n i locked checked less e (omega arith)
      Move-raises (is_refused e p) = goes_on n i locked returned less e (omega arith)
      Move-raises (inserts e unrivalled fine) = goes_on n i checked (writing 0) less e (omega arith)
      Move-raises (violates e broken) = goes_on n i checked returned less e (omega arith)
      Move-raises (writes k e few fine) =
          goes_on n i (writing k) (writing (suc k)) less e (omega arith)
      Move-raises (draws_twice k e twice) =
          goes_on n i (writing k) returned less e (rank_below i (writing k) e refl)
      Move-raises (starts e) = goes_on n i opened waiting_first less e (omega arith)
      Move-raises (is_aborted reading excluded) =
          goes_on n i (s.phase i) returned less refl
            (rank_below i (s.phase i) refl (reading_open (s.phase i) reading))
      Move-raises (commits e free) = goes_on n i (writing 3) returned less e (omega arith)

    Step-raises :
        {n : ℕ} {t : System} → Step env d threads n s t → total n s.phase < total n t.phase
    Step-raises {n} (moves i less move) = Move-raises n i less move
    Step-raises {n} (fails i less open_) =
        goes_on n i (s.phase i) returned less refl (rank_below i (s.phase i) refl open_)

  Run-raises :
      DecimalLaws d
      → {n : ℕ} {s t : System} (run : Run env d threads n s t) → Inv env d threads s
      → total n s.phase + steps_of run ≤ 9 * n
  Run-raises laws {n} {s} here h =
      let bound = total_bounded n s.phase (λ j. rank_bounded s h j (s.phase j) refl) in omega arith
  Run-raises laws {n} {s} (onward {t = t} step rest) h =
      let later = Run-raises laws rest (Step-Inv env d threads laws step h) in
      let raised = Step-raises s h step in omega arith

  pub steps_of_bounded :
      DecimalLaws d
      → (n : ℕ) (db : Db) {t : System} (run : Run env d threads n (begun db) t)
      → steps_of run ≤ 9 * n
  steps_of_bounded laws n db run =
      let all = Run-raises laws run (begun-Inv env d threads db) in omega arith
