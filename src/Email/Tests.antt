-- ===== src/Email/Tests.antt =====
-- The theorems on the pool of workers at concrete runs.
use bank_system.Prelude.{◌≤◌, ◌≡◌, refl, ◌⊎◌, true, false, Bool, [], ◌∷◌, length, All}
use bank_system.Email.{
  Job, waiting, sending, returned, queued, Worker, new_worker, start, enqueue, Step, enqueues,
  receives, quits, Run, here, onward,
}
use bank_system.Email.Jobs.{IsAccounted, start-IsAccounted}
use bank_system.Email.Shutdown.{steps_left, Run-ends}

abbrev welcome : Job
welcome = record {
  job_type = "welcome";
  to = "noor@bank.in";
  username = "noor";
  extra_data = λ k. "";
}

abbrev pool : Worker
pool = start 1 (new_worker 1 1)

abbrev busy : Worker
busy = record {
  jobs = [];
  queue_size = 1;
  jobs_closed = false;
  quit_closed = false;
  workers = sending welcome ∷ [];
  history = queued welcome ∷ [];
}

-- A job is queued, and a worker takes it.
taken : Run 2 pool busy
unfolding start new_worker enqueue
taken = onward (enqueues welcome refl) (
    onward
      (receives welcome [] (sending welcome ∷ []) refl
        (record { front = []; back = []; before = refl; after = refl }))
      here)

start-IsAccounted_example : (length busy.jobs ≤ 1) × ((p : Job → Bool) → IsAccounted p busy)
start-IsAccounted_example = start-IsAccounted 1 1 taken

-- Both channels are closed, and a job is in the queue.
abbrev closing : Worker
closing = record {
  jobs = welcome ∷ [];
  queue_size = 1;
  jobs_closed = true;
  quit_closed = true;
  workers = waiting ∷ [];
  history = queued welcome ∷ [];
}

-- The worker returns with the job left where it is.
gone : Run 1 closing (record closing { workers = returned ∷ [] })
gone =
    onward
      (quits (returned ∷ []) refl (record { front = []; back = []; before = refl; after = refl }))
      here

Run-ends_example :
    (1 ≤ steps_left closing)
    × (All (λ s. s ≡ returned) (returned ∷ [])
        ⊎ ((w : Worker) × Step (record closing { workers = returned ∷ [] }) w))
Run-ends_example = Run-ends refl refl gone
