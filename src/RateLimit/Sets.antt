-- ===== src/RateLimit/Sets.antt =====
-- Redis as the rate limiter uses it: sorted sets, and pipelines of commands. The server is a
-- parameter; what its commands do to a sorted set is written out here.
use bank_system.Prelude.{
  ℕ, ◌-◌, String, str_eq, not, List, [], ◌∷◌, filter, length, take, ◌≡◌, if◌then◌else◌,
}
use bank_system.Prelude.Int.{ℤ, ltb_ℤ}
use bank_system.External.{Result, ok, err}
use bank_system.Errs.{Error}

pub record Entry : Type 0 where
  pub score : ℤ
  pub member : String

-- The sorted sets of the server by their keys; the entry that was added last comes first.
abbrev pub Sets : Type 0
Sets = String → List Entry

pub data Command : Type 0 where
  z_rem_range_by_score : (key : String) (max : ℤ) → Command
  z_card : (key : String) → Command
  z_add : (key : String) → Entry → Command
  z_rem : (key member : String) → Command
  expire : (key : String) (ttl : ℕ) → Command

abbrev pub put_set : String → List Entry → Sets → Sets
put_set key l sets k = if str_eq k key then l else sets k

-- The entries that a score from -inf to a bound does not have.
abbrev pub above : ℤ → List Entry → List Entry
above bound = filter (λ e. ltb_ℤ bound e.score)

abbrev pub others : String → List Entry → List Entry
others member = filter (λ e. not (str_eq e.member member))

-- The reply of a command, and the sets after it. A key that expires is not followed: its set has by
-- then no entry that the next request would not drop.
unfoldable pub perform : Command → Sets → ℕ × Sets
perform (z_rem_range_by_score key max) sets =
    (length (sets key) - length (above max (sets key)), put_set key (above max (sets key)) sets)
perform (z_card key) sets = (length (sets key), sets)
perform (z_add key e) sets = (
  1 - (length (sets key) - length (others e.member (sets key))),
  put_set key (e ∷ others e.member (sets key)) sets,
)
perform (z_rem key member) sets = (
  length (sets key) - length (others member (sets key)),
  put_set key (others member (sets key)) sets,
)
perform (expire key ttl) sets = (1, sets)

unfoldable pub perform_all : List Command → Sets → List ℕ × Sets
unfolding perform
perform_all [] sets = ([], sets)
perform_all (c ∷ cs) sets =
    let (reply, sets') = perform c sets in
    let (replies, sets'') = perform_all cs sets' in (reply ∷ replies, sets'')

-- A client with its server: a pipeline answers with the replies, or fails.
pub record SetServer : Type 1 where
  pub State : Type 0
  pub sets : State → Sets
  pub exec : List Command → State → Result (List ℕ) × State

-- The attempts at a pipeline that did not come through: of each, some of the first commands were
-- run, or none. A client that loses the connection sends the whole pipeline again.
unfoldable pub attempts : List Command → List ℕ → Sets → Sets
unfolding perform_all
attempts cs [] sets = sets
attempts cs (n ∷ ns) sets = attempts cs ns (perform_all (take n cs) sets).1

-- A pipeline that succeeds has run all its commands in their order, after attempts that did not
-- come through; one that fails has had such attempts alone.
pub record SetServerLaws (z : SetServer) : Type 0 where
  pub exec_ok :
      (cs : List Command) (s : z.State) (replies : List ℕ)
      → (z.exec cs s).0 ≡ ok replies
      → (ns : List ℕ) × ((replies, z.sets (z.exec cs s).1)
          ≡ perform_all cs (attempts cs ns (z.sets s)))
  pub exec_err :
      (cs : List Command) (s : z.State) (e : Error)
      → (z.exec cs s).0 ≡ err e
      → (ns : List ℕ) × (z.sets (z.exec cs s).1 ≡ attempts cs ns (z.sets s))
