-- ===== src/Errs.antt =====
-- internal/errs/errors.go, and Go's error values as the services build them: the sentinels, new
-- errors with a text of their own, errors of the driver, and errors wrapped by `%w`.
use bank_system.Prelude.{String, str_append, Bool, true, false}

pub data Sentinel : Type 0 where
  insufficient_funds account_not_found account_not_active duplicate_transaction : Sentinel
  same_account invalid_amount : Sentinel
  invalid_credentials username_taken email_taken missing_fields : Sentinel
  not_system_user : Sentinel

-- `sentinel_text s` is the argument of the `errors.New` that makes `s`.
abbrev pub sentinel_text : Sentinel → String
sentinel_text Sentinel.insufficient_funds = "insufficient funds"
sentinel_text Sentinel.account_not_found = "account not found"
sentinel_text Sentinel.account_not_active = "account is not active"
sentinel_text Sentinel.duplicate_transaction =
    "duplicate transaction: idempotency key already processed"
sentinel_text Sentinel.same_account = "cannot transfer to the same account"
sentinel_text Sentinel.invalid_amount = "transfer amount must be positive"
sentinel_text Sentinel.invalid_credentials = "invalid username or password"
sentinel_text Sentinel.username_taken = "username already taken"
sentinel_text Sentinel.email_taken = "email already taken"
sentinel_text Sentinel.missing_fields = "missing required fields"
sentinel_text Sentinel.not_system_user = "forbidden: system user access required"

-- `wrap p e` is `fmt.Errorf("<p>%w", e)`, and `driver m` an error of a package that is not here.
pub data Error : Type 0 where
  sentinel : Sentinel → Error
  plain driver : String → Error
  wrap : String → Error → Error

-- `err.Error()`
pub message : Error → String
message (sentinel s) = sentinel_text s
message (plain m) = m
message (driver m) = m
message (wrap p e) = str_append p (message e)

abbrev pub same_sentinel : Sentinel → Sentinel → Bool
same_sentinel Sentinel.insufficient_funds Sentinel.insufficient_funds = true
same_sentinel Sentinel.account_not_found Sentinel.account_not_found = true
same_sentinel Sentinel.account_not_active Sentinel.account_not_active = true
same_sentinel Sentinel.duplicate_transaction Sentinel.duplicate_transaction = true
same_sentinel Sentinel.same_account Sentinel.same_account = true
same_sentinel Sentinel.invalid_amount Sentinel.invalid_amount = true
same_sentinel Sentinel.invalid_credentials Sentinel.invalid_credentials = true
same_sentinel Sentinel.username_taken Sentinel.username_taken = true
same_sentinel Sentinel.email_taken Sentinel.email_taken = true
same_sentinel Sentinel.missing_fields Sentinel.missing_fields = true
same_sentinel Sentinel.not_system_user Sentinel.not_system_user = true
same_sentinel _ _ = false

-- `errors.Is(err, s)`: it walks down the wrapped errors.
unfoldable pub errors_is : Error → Sentinel → Bool
errors_is (sentinel t) s = same_sentinel t s
errors_is (plain _) s = false
errors_is (driver _) s = false
errors_is (wrap _ e) s = errors_is e s
