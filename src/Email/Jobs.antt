-- ===== src/Email/Jobs.antt =====
-- What becomes of the jobs.
use bank_system.Prelude.{
  ℕ, zero, suc, ◌+◌, ◌≤◌, ◌<◌, ◌≡◌, refl, ap, ◌⊎◌, inl, inr, Bool, true, false, [], ◌∷◌, ◌++◌, some,
  length, length-append, arith, ltb, total, total-append, if◌then◌else◌, Bool-cases,
}
use bank_system.Email.Turns.{total-Turn}
use bank_system.Email.{
  Job, WorkerState, sending, Event, queued, dropped, sent, not_sent, Worker, new_worker, idle,
  start, enqueue, Step, enqueues, closes_quit, closes_jobs, receives, finishes, runs_dry, quits,
  Run, here, onward,
}

-- A send that does not panic has put the job behind the others, or found no room and dropped it.
enqueue_cases :
    (job : Job) (w : Worker) {w' : Worker}
    → enqueue job w ≡ some w'
    → ((length w.jobs < w.queue_size)
        × (w' ≡ record w { jobs = w.jobs ++ job ∷ []; history = queued job ∷ w.history }))
      ⊎ (w' ≡ record w { history = dropped job ∷ w.history })
unfolding enqueue
enqueue_cases job w h = elim (Bool-cases w.jobs_closed) [
  | inl closed ↦ absurd (ground arith)
  | inr opened ↦ elim (Bool-cases (ltb (length w.jobs) w.queue_size)) [
    | inl room ↦ inl (ground arith, ground arith)
    | inr full ↦ inr (ground arith)
  ]
]

module _ (p : Job → Bool) where
  abbrev mark : Job → ℕ
  mark job = if p job then 1 else 0

  abbrev in_hand : WorkerState → ℕ
  in_hand (sending job) = mark job
  in_hand _ = 0

  abbrev accepted : Event → ℕ
  accepted (queued job) = mark job
  accepted _ = 0

  abbrev handled : Event → ℕ
  handled (sent job) = mark job
  handled (not_sent job) = mark job
  handled _ = 0

  -- Of the jobs that pass a test, those that were accepted are in the queue, in a worker's hand or
  -- done with.
  abbrev pub IsAccounted : Worker → Type 0
  IsAccounted w =
      total accepted w.history
      ≡ total mark w.jobs + total in_hand w.workers + total handled w.history

  enqueue-IsAccounted :
      (job : Job) (w : Worker) {w' : Worker}
      → enqueue job w ≡ some w'
      → IsAccounted w
      → IsAccounted w'
  enqueue-IsAccounted job w h i = elim (enqueue_cases job w h) [
    | inl (_, e) ↦ rw e (omega (arith, total-append mark w.jobs (job ∷ [])))
    | inr e ↦ rw e (omega arith)
  ]

  Step-IsAccounted : {w w' : Worker} → Step w w' → IsAccounted w → IsAccounted w'
  Step-IsAccounted {w} (enqueues job h) i = enqueue-IsAccounted job w h i
  Step-IsAccounted (closes_quit h) i = i
  Step-IsAccounted (closes_jobs h h') i = i
  Step-IsAccounted {w} (receives job rest l h t) i =
      let e = total-Turn in_hand t in
      let taken : total mark w.jobs ≡ mark job + total mark rest = ap (total mark) h in omega arith
  Step-IsAccounted (finishes job true l t) i = let e = total-Turn in_hand t in omega arith
  Step-IsAccounted (finishes job false l t) i = let e = total-Turn in_hand t in omega arith
  Step-IsAccounted (runs_dry l h h' t) i = let e = total-Turn in_hand t in omega arith
  Step-IsAccounted (quits l h t) i = let e = total-Turn in_hand t in omega arith

  Run-IsAccounted : {n : ℕ} {w w' : Worker} → Run n w w' → IsAccounted w → IsAccounted w'
  Run-IsAccounted here i = i
  Run-IsAccounted (onward step rest) i = Run-IsAccounted rest (Step-IsAccounted step i)

-- The queue has room for its jobs.
abbrev IsBounded : ℕ → Worker → Type 0
IsBounded n w = (w.queue_size ≡ n) × (length w.jobs ≤ n)

Step-IsBounded : {n : ℕ} {w w' : Worker} → Step w w' → IsBounded n w → IsBounded n w'
Step-IsBounded {w} (enqueues job h) (size, i) = elim (enqueue_cases job w h) [
  | inl (room, e) ↦ rw e (size, omega (arith, length-append w.jobs (job ∷ [])))
  | inr e ↦ rw e (size, i)
]
Step-IsBounded (closes_quit h) i = i
Step-IsBounded (closes_jobs h h') i = i
Step-IsBounded (receives job rest l h t) (size, i) = let fewer = ap length h in (size, omega arith)
Step-IsBounded (finishes job b l t) i = i
Step-IsBounded (runs_dry l h h' t) i = i
Step-IsBounded (quits l h t) i = i

Run-IsBounded : {n k : ℕ} {w w' : Worker} → Run k w w' → IsBounded n w → IsBounded n w'
Run-IsBounded here i = i
Run-IsBounded (onward step rest) i = Run-IsBounded rest (Step-IsBounded step i)

in_hand-idle : (p : Job → Bool) (n : ℕ) → total (in_hand p) (idle n) ≡ 0
in_hand-idle p zero = refl
in_hand-idle p (suc n) = omega (arith, in_hand-idle p n)

-- However the pool runs, from its start on, the queue never has more jobs than places; and of the
-- jobs that pass any test, as many have been queued as are in the queue, in a worker's hand, or
-- done with, that is sent or given up for an error. A job may stay in the queue for good, once all
-- the workers have returned.
pub start-IsAccounted :
    (pool_size queue_size : ℕ) {n : ℕ} {w : Worker}
    → Run n (start pool_size (new_worker pool_size queue_size)) w
    → (length w.jobs ≤ queue_size) × ((p : Job → Bool) → IsAccounted p w)
unfolding start new_worker
start-IsAccounted pool_size queue_size run = (
  (Run-IsBounded run (refl, omega arith)).1,
  λ p. Run-IsAccounted p run (omega (arith, in_hand-idle p pool_size)),
)
