-- ===== src/RateLimit/Tests.antt =====
-- The theorems on the rate limiter at concrete inputs.
use bank_system.Prelude.{
  ◌≤◌, ◌-◌, String, true, false, ◌≡◌, refl, List, [], ◌∷◌, length, leb, arith, if◌then◌else◌,
}
use bank_system.Prelude.Int.{pos}
use bank_system.Model.{Time}
use bank_system.External.{ok}
use bank_system.RateLimit.Sets.{Sets, above, perform, perform_all}
use bank_system.RateLimit.{RateLimiterConfig, bound_at, pipeline, check, decide}
use bank_system.RateLimit.Pipelines.{live}
use bank_system.RateLimit.Window.{check-live}
use bank_system.Fixtures.Limiter.{steady, steady-laws, exact, exact-laws}
use bank_system.RateLimit.Budget.{entries, serve, serve_all, serve_all-length}

-- Two requests in ten nanoseconds.
abbrev two : RateLimiterConfig
two = record { max_requests = 2; window = 10 }

abbrev empty : Sets
empty k = []

-- Two requests of the window are in the set, and one that has left it.
abbrev filled : Sets
filled k =
    record { score = pos 15; member = "b" }
    ∷ record { score = pos 12; member = "a" }
    ∷ record { score = pos 3; member = "z" }
    ∷ []

check-live_example :
    (check steady exact two "k" 20 filled).0
    ≡ ok (
        if leb 2 (length (live steady exact two "k" 20 filled))
        then (false, 0)
        else (true, 2 - length (live steady exact two "k" 20 filled) - 1))
check-live_example =
    check-live steady exact two "k" 20 filled
      (perform_all (pipeline steady exact two "k" 20) filled).0 refl refl

abbrev trace : List (String × Time)
trace = ("k", 20) ∷ ("k", 21) ∷ ("k", 22) ∷ ("k", 32) ∷ []

-- The third of the requests is refused.
served : (serve_all steady exact two "k" trace (empty, [])).1 ≡ 32 ∷ 21 ∷ 20 ∷ []
unfolding serve_all serve check decide perform_all perform
served = refl

serve_all-length_example :
    length (
      above
        (bound_at steady exact two 32)
        (entries steady exact two (serve_all steady exact two "k" trace (empty, [])).1))
    ≤ 2
serve_all-length_example =
    serve_all-length steady exact two exact-laws steady-laws "k" empty 0 32 trace (ground arith)
      (omega arith)
