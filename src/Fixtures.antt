-- ===== src/Fixtures.antt =====
-- Concrete packages and tables for the tests: they meet the laws that the theorems ask for.
pub mod Sessions
pub mod Limiter
use bank_system.Prelude.{
  ℕ, suc, zero, ◌+◌, ◌*◌, ◌/◌, ◌-◌, String, str_eq, str_eq_iff, Bool, true, false, not, ◌≡◌, refl,
  List, [], ◌∷◌, none, some, arith, any, filter, if◌then◌else◌, ltb,
}
use bank_system.Prelude.Int.{ℤ, pos, negsuc, ◌≤ℤ◌, ltb_ℤ, ◌+ℤ◌, ◌-ℤ◌}
use bank_system.Model.{
  Uuid, User, Account, AccountStatus, active, frozen, completed, credit, TransferRequest,
}
use bank_system.External.{
  Result, ok, err, committed, unknown, Env, Decimals, DecimalLaws, Redis, RedisLaws,
}
use bank_system.Store.Db.{Db, balance_of}
use bank_system.Store.Balance.{IsSolvent}
use bank_system.Store.Consistency.{IsConsistent, minted}
use bank_system.Store.Runs.{IsCalm}
use bank_system.Transfer.{World}
use bank_system.Auth.Token.{Claims, Jwt, hmac, token_ttl}
use bank_system.Auth.Middleware.{Request, Handler, payload, user_id_from_ctx}

-- Decimals of five places, so that one more digit than NUMERIC(18,4) keeps is rounded.
abbrev pub round_five : ℤ → ℤ
round_five (pos n) = pos ((n + 5) / 10)
round_five (negsuc n) = if ltb (n + 6) 10 then pos 0 else negsuc ((n + 6) / 10 - 1)

abbrev pub times_ten : ℤ → ℤ
times_ten (pos n) = pos (n * 10)
times_ten (negsuc n) = negsuc (n * 10 + 9)

abbrev pub five_places : Decimals
five_places = record {
  Decimal = ℤ;
  is_positive = λ v. ltb_ℤ (pos 0) v;
  less_than = ltb_ℤ;
  to_numeric = round_five;
  from_numeric = times_ten;
}

round_five-times_ten : (v : ℤ) → round_five (times_ten v) ≡ v
round_five-times_ten (pos n) = ground arith
round_five-times_ten (negsuc n) = ground arith

round_five_mono : (x y : ℤ) → ltb_ℤ y x ≡ false → round_five x ≤ℤ round_five y
round_five_mono (pos n) (pos m) h = ground arith
round_five_mono (pos n) (negsuc m) h = ground arith
round_five_mono (negsuc n) (pos m) h = ground arith
round_five_mono (negsuc n) (negsuc m) h = ground arith

pub five_places-laws : DecimalLaws five_places
five_places-laws = record {
  to_numeric-from_numeric = round_five-times_ten;
  to_numeric_mono = round_five_mono;
}

-- A Redis server that never fails and never lets a key expire: the keys that are set.
abbrev pub without : String → List String → List String
without k = filter (λ j. not (str_eq j k))

abbrev pub mem_key : String → List String → Bool
mem_key k = any (λ j. str_eq j k)

abbrev pub key_list : Redis
key_list = record {
  State = List String;
  set_nx = λ k v ttl s. (ok (not (mem_key k s)), if mem_key k s then s else k ∷ s);
  set = λ k v ttl s. (ok tt, k ∷ s);
  del = λ k s. (ok tt, without k s);
  exists = mem_key;
  exists_reply = λ k s. ok (if mem_key k s then 1 else 0);
}

mem_key-without : (k : String) (s : List String) → mem_key k (without k s) ≡ false
mem_key-without k [] = refl
mem_key-without k (j ∷ s) = ground (arith, mem_key-without k s, str_eq_iff j k)

pub key_list-laws : RedisLaws key_list
key_list-laws = record {
  set_nx_reply = λ k v ttl s b h. ground arith;
  set_nx_exists = λ k v ttl s b h. ground (arith, str_eq_iff k k);
  set_exists = λ k v ttl s h. ground arith;
  del_exists = λ k s h. mem_key-without k s;
  set_ok_exists = λ k v ttl s h. ground (arith, str_eq_iff k k);
  exists_reply_counts = λ k s n h. ground arith;
}

-- Texts in the order of the numbers 0 to 4.
abbrev pub small_text : ℕ → String
small_text zero = "00000000-0000-0000-0000-000000000000"
small_text (suc zero) = "00000000-0000-0000-0000-000000000001"
small_text (suc (suc zero)) = "00000000-0000-0000-0000-000000000002"
small_text (suc (suc (suc zero))) = "00000000-0000-0000-0000-000000000003"
small_text _ = "00000000-0000-0000-0000-000000000004"

-- No call fails, the clock counts the calls, and the UUIDs that are drawn count from 1000.
abbrev pub calm : Env
calm = record {
  fault = λ n. none;
  commit = λ n. committed;
  violation = λ c. "pq: constraint violated";
  now = λ n. n;
  pick = λ n. 0;
  rank = λ n id. id;
  new_uuid = λ n. 1000 + n;
  uuid_string = small_text;
}

pub calm-IsCalm : IsCalm calm
calm-IsCalm = record { faultless = λ n. refl; commits = λ n. refl }

-- The reply to every COMMIT is lost.
abbrev pub lossy : Env
lossy = record calm { commit = λ n. unknown "connection reset" }

abbrev pub user : Uuid → String → Bool → User
user id name system = record {
  id = id;
  username = name;
  email = name;
  password_hash = "hash";
  full_name = name;
  is_system_user = system;
  is_active = true;
  created_at = 0;
  updated_at = 0;
}

abbrev pub account : Uuid → AccountStatus → Account
account id status = record {
  id = id;
  user_id = id;
  currency = "INR";
  status = status;
  created_at = 0;
}

-- Account 1 belongs to the system user and has funded account 2 with 100; account 4 is frozen.
abbrev pub tables : Db
tables = record {
  users =
      user 1 "the_vault_system" true
      ∷ user 2 "asha" false
      ∷ user 3 "ravi" false
      ∷ user 4 "mira" false
      ∷ [];
  accounts = account 1 active ∷ account 2 active ∷ account 3 active ∷ account 4 frozen ∷ [];
  transactions =
      record {
        id = 50;
        from_account_id = 1;
        to_account_id = 2;
        amount = pos 1_000_000;
        status = completed;
        idempotency_key = 51;
        created_at = 0;
        updated_at = 0;
      }
      ∷ [];
  ledger =
      record {
        id = 52;
        account_id = 2;
        transaction_id = 50;
        amount = pos 1_000_000;
        entry_type = credit;
        created_at = 0;
      }
      ∷ [];
}

abbrev pub world : World (List String)
world = record { session = record { db = tables; calls = 0; locks = []; clock = 0 }; redis = [] }

-- 25 and a ten-thousandth and a half, from account 2 to account 3.
abbrev pub request : TransferRequest ℤ
request = record {
  from_account_id = 2;
  to_account_id = 3;
  amount = pos 2_500_015;
  idempotency_key = 1;
}

pub tables-IsSolvent : IsSolvent tables
unfolding balance_of ◌+ℤ◌ ◌-ℤ◌
tables-IsSolvent id = ground arith

pub tables-IsConsistent : IsConsistent tables
tables-IsConsistent = record {
  booked = (
    record {
      settled = refl;
      positive = ground arith;
      differ = λ e. omega arith;
      from_known = refl;
      to_known = refl;
      legs = minted (record { account = refl; of = refl; amount = refl; kind = refl });
    },
    tt,
  );
  linked = (record { positive = ground arith; account_known = refl; transaction_known = refl }, tt);
  ids = (refl, tt);
  keys = (refl, tt);
  entry_ids = (refl, tt);
}

-- The claims of a token of user 2, and a library that accepts one token.
abbrev pub asha : Claims
asha = record {
  id = "00000000-0000-0000-0000-000000000003";
  issuer = "omniledger";
  subject = "00000000-0000-0000-0000-000000000002";
  issued_at = 0;
  expires_at = token_ttl;
  user_id = 2;
  username = "asha";
  is_system_user = false;
}

abbrev pub accepts : Claims → Result String → String → Result (Claims × Bool)
accepts claims (ok secret) token = ok (claims, str_eq token "token")
accepts claims (err e) token = err e

abbrev pub jwt_of : Claims → Jwt
jwt_of claims = record {
  sign = λ secret c. ok "token";
  parse = λ now key token. accepts claims (key hmac) token;
}

abbrev pub with_token : Request ℕ
with_token = record { cookie = some "token"; body = some 0 }

abbrev pub whoami : Handler (List String) ℕ Uuid
whoami ctx req w = (record { status = 200; body = payload (user_id_from_ctx ctx) }, w)
