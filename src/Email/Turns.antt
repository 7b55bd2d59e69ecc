-- ===== src/Email/Turns.antt =====
-- What a turn of one worker does to the sum of a measure over the workers.
use bank_system.Prelude.{ℕ, ◌+◌, ◌≡◌, List, ◌∷◌, arith, total, total-append}
use bank_system.Email.{WorkerState, Turn}

pub total-Turn :
    (f : WorkerState → ℕ) {from to : WorkerState} {l l' : List WorkerState}
    → Turn from to l l'
    → total f l + f to ≡ total f l' + f from
total-Turn f {from} {to} t =
    let e = total-append f t.front (from ∷ t.back) in
    let e' = total-append f t.front (to ∷ t.back) in rw (t.before, t.after) (omega arith)
