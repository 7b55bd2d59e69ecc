-- ===== src/Model.antt =====
-- internal/model/model.go: the domain types. An amount is the Go decimal in a value that the
-- services build, and an integer of ten-thousandths in a row of a NUMERIC(18,4) column, so the
-- records that have one are generic in its type.
use bank_system.Prelude.{ℕ, String, Bool, List}

-- A UUID as the number of its 128 bits.
abbrev pub Uuid : Type 0
Uuid = ℕ

abbrev pub nil_uuid : Uuid
nil_uuid = 0

-- Nanoseconds since some epoch; 0 stands for the zero time of a value that sets none.
abbrev pub Time : Type 0
Time = ℕ

pub data AccountStatus : Type 0 where
  active frozen closed : AccountStatus

pub data TransactionStatus : Type 0 where
  pending completed failed reversed : TransactionStatus

pub data EntryType : Type 0 where
  credit debit : EntryType

pub record User : Type 0 where
  pub id : Uuid
  pub username : String
  pub email : String
  pub password_hash : String
  pub full_name : String
  pub is_system_user : Bool
  pub is_active : Bool
  pub created_at : Time
  pub updated_at : Time

pub record Account : Type 0 where
  pub id : Uuid
  pub user_id : Uuid
  pub currency : String
  pub status : AccountStatus
  pub created_at : Time

pub record Transaction (Amount : Type 0) : Type 0 where
  pub id : Uuid
  pub from_account_id : Uuid
  pub to_account_id : Uuid
  pub amount : Amount
  pub status : TransactionStatus
  pub idempotency_key : Uuid
  pub created_at : Time
  pub updated_at : Time

pub record LedgerEntry (Amount : Type 0) : Type 0 where
  pub id : Uuid
  pub account_id : Uuid
  pub transaction_id : Uuid
  pub amount : Amount
  pub entry_type : EntryType
  pub created_at : Time

pub record TransferRequest (Amount : Type 0) : Type 0 where
  pub from_account_id : Uuid
  pub to_account_id : Uuid
  pub amount : Amount
  pub idempotency_key : Uuid

pub record TransferResponse : Type 0 where
  pub transaction_id : Uuid
  pub status : TransactionStatus
  pub message : String

pub record FundRequest (Amount : Type 0) : Type 0 where
  pub to_account_id : Uuid
  pub amount : Amount

pub record FundResponse (Amount : Type 0) : Type 0 where
  pub transaction_id : Uuid
  pub to_account_id : Uuid
  pub amount : Amount
  pub status : TransactionStatus
  pub message : String

pub record TransactionHistoryItem (Amount : Type 0) : Type 0 where
  pub id : Uuid
  pub from_account_id : Uuid
  pub to_account_id : Uuid
  pub amount : Amount
  pub status : TransactionStatus
  pub idempotency_key : Uuid
  pub created_at : Time
  pub updated_at : Time
  pub direction : String

pub record PaginatedHistory (Amount : Type 0) : Type 0 where
  pub items : List (TransactionHistoryItem Amount)
  pub total : ℕ
  pub page : ℕ
  pub per_page : ℕ
  pub total_pages : ℕ

pub record BalanceResponse : Type 0 where
  pub account_id : Uuid
  pub currency : String
  pub balance : String

pub record RegisterRequest : Type 0 where
  pub username : String
  pub email : String
  pub password : String
  pub full_name : String

pub record LoginRequest : Type 0 where
  pub username : String
  pub password : String

pub record AuthResponse : Type 0 where
  pub user : User
  pub token : String
