-- ===== src/RateLimit.antt =====
-- internal/middleware/ratelimit.go: at most so many requests of an address on a route in a sliding
-- window. `float64` and `strconv.FormatInt` are parameters.
pub mod Sets
pub mod Pipelines
pub mod Window
pub mod Budget
mod Tests
use bank_system.Prelude.{
  ℕ, zero, suc, ◌+◌, ◌-◌, ◌*◌, ◌/◌, ◌≡◌, String, str_append, str_eq, Bool, true, false, List, [],
  ◌∷◌, Option, none, some, leb, if◌then◌else◌,
}
use bank_system.Prelude.Int.{ℤ, pos, sub_ℕ, ◌≤ℤ◌}
use bank_system.Errs.{Error}
use bank_system.Model.{Time}
use bank_system.External.{Result, ok, err}
use bank_system.RateLimit.Sets.{
  Entry, Command, z_rem_range_by_score, z_card, z_add, z_rem, expire, SetServer,
}

abbrev second : ℕ
second = 1_000_000_000

-- `RateLimiterConfig`, the window in nanoseconds.
pub record RateLimiterConfig : Type 0 where
  pub max_requests : ℕ
  pub window : ℕ

-- The double that is nearest to a number of nanoseconds, as a whole number, and the decimal text of
-- a number. Redis reads a bound in such a text as the nearest double too.
pub record Formats : Type 0 where
  pub to_double : ℤ → ℤ
  pub format_int : ℕ → String

pub record FormatsLaws (f : Formats) : Type 0 where
  pub to_double_mono : (a b : ℤ) → a ≤ℤ b → f.to_double a ≤ℤ f.to_double b
  pub format_int_injective : (m n : ℕ) → f.format_int m ≡ f.format_int n → m ≡ n

-- The headers that carry an address, empty where a request has none, and the peer's address.
pub record Origin : Type 0 where
  pub x_forwarded_for : String
  pub x_real_ip : String
  pub remote_addr : String

unfoldable pub extract_ip : Origin → String
extract_ip o =
    if str_eq o.x_forwarded_for ""
    then (if str_eq o.x_real_ip "" then o.remote_addr else o.x_real_ip)
    else o.x_forwarded_for

abbrev pub limit_key : String → String → String
limit_key ip route = str_append "vault:ratelimit:" (str_append ip (str_append ":" route))

-- The value of the second command's reply.
abbrev pub second_reply : List ℕ → ℕ
second_reply (_ ∷ n ∷ _) = n
second_reply _ = 0

-- `X-RateLimit-Limit`, `X-RateLimit-Remaining` and `X-RateLimit-Reset`
pub record RateHeaders : Type 0 where
  pub quota : ℕ
  pub left : ℕ
  pub reset : ℕ

-- The response 429 with its `Retry-After`, or what the handler behind answered.
pub data Limited (A : Type 0) : Type 0 where
  too_many : RateHeaders → ℕ → Limited A
  let_through : Option RateHeaders → A → Limited A

module _ (z : SetServer) (f : Formats) (cfg : RateLimiterConfig) where
  -- `windowStart` as Redis reads it.
  abbrev pub bound_at : Time → ℤ
  bound_at now = f.to_double (sub_ℕ now cfg.window)

  abbrev pub entry_at : Time → Entry
  entry_at now = record { score = f.to_double (pos now); member = f.format_int now }

  abbrev pub pipeline : String → Time → List Command
  pipeline key now =
      z_rem_range_by_score key (bound_at now)
      ∷ z_card key
      ∷ z_add key (entry_at now)
      ∷ expire key (cfg.window + second)
      ∷ []

  -- From the replies of the pipeline on. The error of the ZREM is dropped.
  unfoldable pub decide : String → Time → Result (List ℕ) → z.State → Result (Bool × ℕ) × z.State
  decide key now (err e) s = (err e, s)
  decide key now (ok replies) s =
      let count = second_reply replies in
      if leb cfg.max_requests count
      then (ok (false, 0), (z.exec (z_rem key (f.format_int now) ∷ []) s).1)
      else (ok (true, cfg.max_requests - count - 1), s)

  unfoldable pub check : String → Time → z.State → Result (Bool × ℕ) × z.State
  unfolding decide
  check key now s = let (r, s') = z.exec (pipeline key now) s in decide key now r s'

  abbrev pub headers_at : Time → ℕ → RateHeaders
  headers_at now remaining = record {
    quota = cfg.max_requests;
    left = remaining;
    reset = (now + cfg.window) / second;
  }

  module _ {W A : Type 0} (next : W → A × W) where
    unfoldable pub conclude : Time → Result (Bool × ℕ) → W → Limited A × W
    conclude now (err e) w = let (a, w') = next w in (let_through none a, w')
    conclude now (ok (true, remaining)) w =
        let (a, w') = next w in (let_through (some (headers_at now remaining)) a, w')
    conclude now (ok (false, remaining)) w =
        (too_many (headers_at now remaining) (cfg.window / second), w)

    -- `Limit`, at a time: the limiter's state of Redis, and the state that the handler works on.
    unfoldable pub limit : String → Origin → Time → z.State → W → (Limited A × W) × z.State
    unfolding conclude extract_ip
    limit route origin now s w =
        let (r, s') = check (limit_key (extract_ip origin) route) now s in (conclude now r w, s')
