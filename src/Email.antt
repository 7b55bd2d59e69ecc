-- ===== src/Email.antt =====
-- internal/email/worker.go: the pool of workers that send mails, as a system of steps. Whether the SMTP
-- server takes a mail is outside.
pub mod Turns
pub mod Jobs
pub mod Shutdown
pub mod Mail
mod Tests
use bank_system.Prelude.{
  ℕ, zero, suc, ◌≡◌, String, Bool, true, false, List, [], ◌∷◌, ◌++◌, Option, none, some, length,
  ltb, if◌then◌else◌,
}

-- `Job`, its type a string; the map's value of a key that it does not have is the empty string.
pub record Job : Type 0 where
  pub job_type : String
  pub to : String
  pub username : String
  pub extra_data : String → String

-- Where a goroutine of `process` stands: in its select, in `send` with a job, or at its end.
pub data WorkerState : Type 0 where
  waiting : WorkerState
  sending : Job → WorkerState
  returned : WorkerState

-- What happens to a job: `Enqueue` has put it in the channel or found no room for it, `send` has
-- returned without an error or with one.
pub data Event : Type 0 where
  queued dropped sent not_sent : Job → Event

-- `Worker`: the channel of jobs with its buffer, the channel `quit`, the goroutines, which `wg`
-- counts until they return, and for the proofs what has happened so far, the last event first. An
-- event stands at the operation itself. The line that the program logs about it is written after
-- the operation, other goroutines may run before it, and it is not modelled.
pub record Worker : Type 0 where
  pub jobs : List Job
  pub queue_size : ℕ
  pub jobs_closed : Bool
  pub quit_closed : Bool
  pub workers : List WorkerState
  pub history : List Event

-- `NewWorker`, for a queue of at least one place. The pool's size is not used.
unfoldable pub new_worker : (pool_size queue_size : ℕ) → Worker
new_worker pool_size queue_size = record {
  jobs = [];
  queue_size = queue_size;
  jobs_closed = false;
  quit_closed = false;
  workers = [];
  history = [];
}

abbrev pub idle : ℕ → List WorkerState
idle zero = []
idle (suc n) = waiting ∷ idle n

unfoldable pub start : ℕ → Worker → Worker
start pool_size w = record w { workers = w.workers ++ idle pool_size }

-- `Enqueue`, its select: a send on a closed channel panics.
unfoldable pub enqueue : Job → Worker → Option Worker
enqueue job w =
    if w.jobs_closed
    then none
    else if ltb (length w.jobs) w.queue_size
    then some (record w { jobs = w.jobs ++ job ∷ []; history = queued job ∷ w.history })
    else some (record w { history = dropped job ∷ w.history })

-- A worker goes from one state to another, the others stay where they are.
pub record Turn (from to : WorkerState) (l l' : List WorkerState) : Type 0 where
  pub front : List WorkerState
  pub back : List WorkerState
  pub before : l ≡ front ++ from ∷ back
  pub after : l' ≡ front ++ to ∷ back

-- One step of the program. `Shutdown` closes `quit`, then the jobs; where a select has several
-- cases that are ready, any of them may be taken.
pub data Step : Worker → Worker → Type 0 where
  enqueues : {w w' : Worker} (job : Job) → enqueue job w ≡ some w' → Step w w'
  closes_quit : {w : Worker} → w.quit_closed ≡ false → Step w (record w { quit_closed = true })
  closes_jobs :
      {w : Worker}
      → w.quit_closed ≡ true
      → w.jobs_closed ≡ false
      → Step w (record w { jobs_closed = true })
  receives :
      {w : Worker} (job : Job) (rest : List Job) (l : List WorkerState)
      → w.jobs ≡ job ∷ rest
      → Turn waiting (sending job) w.workers l
      → Step w (record w { jobs = rest; workers = l })
  finishes :
      {w : Worker} (job : Job) (delivered : Bool) (l : List WorkerState)
      → Turn (sending job) waiting w.workers l
      → Step w (record w {
        workers = l;
        history = (if delivered then sent job else not_sent job) ∷ w.history;
      })
  runs_dry :
      {w : Worker} (l : List WorkerState)
      → w.jobs ≡ []
      → w.jobs_closed ≡ true
      → Turn waiting returned w.workers l
      → Step w (record w { workers = l })
  quits :
      {w : Worker} (l : List WorkerState)
      → w.quit_closed ≡ true
      → Turn waiting returned w.workers l
      → Step w (record w { workers = l })

-- So many steps, one after the other.
pub data Run : ℕ → Worker → Worker → Type 0 where
  here : {w : Worker} → Run 0 w w
  onward : {n : ℕ} {u v w : Worker} → Step u v → Run n v w → Run (suc n) u w
