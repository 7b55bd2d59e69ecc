-- ===== src/Email/Shutdown.antt =====
-- How `Shutdown` goes on.
use bank_system.Prelude.{
  ℕ, ◌+◌, ◌*◌, ◌≤◌, ◌<◌, ◌≡◌, refl, ap, ◌⊎◌, inl, inr, true, List, [], ◌∷◌, All, length, arith,
  total,
}
use bank_system.Email.Turns.{total-Turn}
use bank_system.Email.{
  Job, WorkerState, waiting, sending, returned, Worker, enqueue, Turn, Step, enqueues, closes_quit,
  closes_jobs, receives, finishes, runs_dry, quits, Run, here, onward,
}

-- The steps that a worker has yet to take if it finds no more jobs.
abbrev pub to_go : WorkerState → ℕ
to_go waiting = 1
to_go (sending job) = 2
to_go returned = 0

-- A bound of the steps that a pool has yet to take.
abbrev pub steps_left : Worker → ℕ
steps_left w = 2 * length w.jobs + total to_go w.workers

-- Both channels are closed.
abbrev IsClosed : Worker → Type 0
IsClosed w = (w.quit_closed ≡ true) × (w.jobs_closed ≡ true)

Step-IsClosed : {u v : Worker} → IsClosed u → Step u v → IsClosed v × (steps_left v < steps_left u)
unfolding enqueue
Step-IsClosed (q, c) (enqueues job h) = absurd (ground arith)
Step-IsClosed (q, c) (closes_quit h) = absurd (cc)
Step-IsClosed (q, c) (closes_jobs h h') = absurd (cc)
Step-IsClosed (q, c) (receives job rest l h t) =
    let e = total-Turn to_go t in ((q, c), rw h (omega arith))
Step-IsClosed (q, c) (finishes job b l t) = let e = total-Turn to_go t in ((q, c), omega arith)
Step-IsClosed (q, c) (runs_dry l h h' t) = let e = total-Turn to_go t in ((q, c), omega arith)
Step-IsClosed (q, c) (quits l h t) = let e = total-Turn to_go t in ((q, c), omega arith)

extend :
    {from to s : WorkerState} {l l' : List WorkerState}
    → Turn from to l l'
    → Turn from to (s ∷ l) (s ∷ l')
extend {s} t = record {
  front = s ∷ t.front;
  back = t.back;
  before = ap (λ m. s ∷ m) t.before;
  after = ap (λ m. s ∷ m) t.after;
}

-- All the workers have returned, or one of them can go on, whatever the queue holds.
find_move :
    (l : List WorkerState)
    → All (λ s. s ≡ returned) l
      ⊎ (((l' : List WorkerState) × Turn waiting returned l l')
          ⊎ ((job : Job) × (l' : List WorkerState) × Turn (sending job) waiting l l'))
find_move [] = inl tt
find_move (waiting ∷ l) =
    inr (inl (_, record { front = []; back = l; before = refl; after = refl }))
find_move (sending job ∷ l) =
    inr (inr (job, _, record { front = []; back = l; before = refl; after = refl }))
find_move (returned ∷ l) = elim (find_move l) [
  | inl all ↦ inl (refl, all)
  | inr (inl (l', t)) ↦ inr (inl (_, extend t))
  | inr (inr (job, l', t)) ↦ inr (inr (job, _, extend t))
]

-- After `Shutdown` has closed both channels, a run of the pool is no longer than a number that is
-- known from the start, and it stops only where all workers have returned; so `wg.Wait` ends,
-- where each mail that is being sent is delivered or fails.
pub Run-ends :
    {n : ℕ} {w w' : Worker}
    → w.quit_closed ≡ true
    → w.jobs_closed ≡ true
    → Run n w w'
    → (n ≤ steps_left w) × (All (λ s. s ≡ returned) w'.workers ⊎ ((w'' : Worker) × Step w' w''))
Run-ends {w} q c here = (
  omega arith,
  elim (find_move w.workers) [
    | inl all ↦ inl all
    | inr (inl (l, t)) ↦ inr (_, quits l q t)
    | inr (inr (job, l, t)) ↦ inr (_, finishes job true l t)
  ],
)
Run-ends q c (onward step rest) =
    let ((q', c'), fewer) = Step-IsClosed (q, c) step in
    let (bound, stops) = Run-ends q' c' rest in (omega arith, stops)
