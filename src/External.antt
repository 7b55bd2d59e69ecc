-- ===== src/External.antt =====
-- What the program uses and does not implement: the database server behind sqlx and lib/pq, the
-- Redis server behind go-redis, shopspring/decimal and google/uuid. Each is a record of what the
-- program calls; what the code relies on is a record of laws beside it.
use bank_system.Prelude.{ℕ, String, Bool, true, false, not, ◌≡◌, Option, ltb}
use bank_system.Prelude.Int.{ℤ, ◌≤ℤ◌}
use bank_system.Errs.{Error}
use bank_system.Model.{Uuid, Time}

-- A Go pair of a value and an error.
pub data Result {ℓ} (A : Type ℓ) : Type ℓ where
  ok : A → Result A
  err : Error → Result A

-- The constraints of sql/V1__init_schema.sql that an INSERT of the program can violate.
pub data Constraint : Type 0 where
  primary_key unique foreign_key positive_amount different_accounts numeric_overflow text_too_long :
      Constraint

-- How a COMMIT ends. `unknown m` is an error after the server has made the transaction durable,
-- as when the connection is lost before the reply.
pub data Commit : Type 0 where
  committed : Commit
  aborted unknown : String → Commit

-- The choices of the outside at the n-th call: whether a statement or a BEGIN fails (with the
-- driver's message), how a COMMIT ends, the server's clock, the row that a LIMIT without an ORDER BY
-- picks, the order in which rows come that an ORDER BY does not tell apart (by a rank of their ids), and
-- the UUID that `uuid.New` draws.
pub record Env : Type 0 where
  pub fault : ℕ → Option String
  pub commit : ℕ → Commit
  pub violation : Constraint → String
  pub now : ℕ → Time
  pub pick : ℕ → ℕ
  pub rank : ℕ → Uuid → ℕ
  pub new_uuid : ℕ → Uuid
  pub uuid_string : Uuid → String

-- `decimal.Decimal`. `to_numeric` is the number of ten-thousandths that a NUMERIC(_, 4) column
-- stores for a decimal, and `from_numeric` is the decimal that is scanned from such a value.
pub record Decimals : Type 1 where
  pub Decimal : Type 0
  pub is_positive : Decimal → Bool
  pub less_than : Decimal → Decimal → Bool
  pub to_numeric : Decimal → ℤ
  pub from_numeric : ℤ → Decimal

-- A stored value is read back as it is, and rounding to four places respects the order.
pub record DecimalLaws (d : Decimals) : Type 0 where
  pub to_numeric-from_numeric : (v : ℤ) → d.to_numeric (d.from_numeric v) ≡ v
  pub to_numeric_mono :
      (x y : d.Decimal) → d.less_than y x ≡ false → d.to_numeric x ≤ℤ d.to_numeric y

-- The commands of a Redis client that the services send, on a state of the server. `exists` is the
-- server's view of a key, and `exists_reply` the answer to EXISTS, a count or an error.
pub record Redis : Type 1 where
  pub State : Type 0
  pub set_nx : String → String → ℕ → State → Result Bool × State
  pub set : String → String → ℕ → State → Result (Unit {0}) × State
  pub del : String → State → Result (Unit {0}) × State
  pub exists : String → State → Bool
  pub exists_reply : String → State → Result ℕ

-- SETNX sets the key exactly if it is absent; SET, DEL and EXISTS do what they say when they report
-- success. A failed SET leaves an existing key in place, whether it was applied or not.
pub record RedisLaws (r : Redis) : Type 0 where
  pub set_nx_reply :
      (k v : String) (ttl : ℕ) (s : r.State) (b : Bool)
      → (r.set_nx k v ttl s).0 ≡ ok b
      → b ≡ not (r.exists k s)
  pub set_nx_exists :
      (k v : String) (ttl : ℕ) (s : r.State) (b : Bool)
      → (r.set_nx k v ttl s).0 ≡ ok b
      → r.exists k (r.set_nx k v ttl s).1 ≡ true
  pub set_exists :
      (k v : String) (ttl : ℕ) (s : r.State)
      → r.exists k s ≡ true
      → r.exists k (r.set k v ttl s).1 ≡ true
  pub del_exists :
      (k : String) (s : r.State) → (r.del k s).0 ≡ ok tt → r.exists k (r.del k s).1 ≡ false
  pub set_ok_exists :
      (k v : String) (ttl : ℕ) (s : r.State)
      → (r.set k v ttl s).0 ≡ ok tt
      → r.exists k (r.set k v ttl s).1 ≡ true
  pub exists_reply_counts :
      (k : String) (s : r.State) (n : ℕ) → r.exists_reply k s ≡ ok n → r.exists k s ≡ ltb 0 n
