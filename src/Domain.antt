-- ===== src/Domain.antt =====
-- internal/domain: customers, log entries, and the errors of the program.
pub mod Email
pub mod Ports
use crm_beginner.Base.{ℕ, Bool, true, false, ◌++◌, ◌==◌}
use crm_beginner.Base.Int.{ℤ}
use crm_beginner.Text.{Bytes, bytes}

-- An id is an int64; ids are only compared and printed. A time is a number.
pub record Customer : Type 0 where
  pub id : ℤ
  pub name : Bytes
  pub email : Bytes
  pub created_at : ℕ
  pub updated_at : ℕ

pub record LogEntry : Type 0 where
  pub level : Bytes
  pub message : Bytes
  pub service : Bytes
  pub occurred_at : ℕ
  pub created_at : ℕ

-- The error values that the code compares with: those of the domain, `ingest.ErrBufferFull`,
-- and those of the libraries.
pub data Sentinel : Type 0 where
  not_found duplicate_email invalid_name invalid_email : Sentinel
  buffer_full no_rows redis_nil eof canceled : Sentinel

tag : Sentinel → ℕ
tag not_found = 0
tag duplicate_email = 1
tag invalid_name = 2
tag invalid_email = 3
tag buffer_full = 4
tag no_rows = 5
tag redis_nil = 6
tag eof = 7
tag canceled = 8

-- An error: a sentinel, a Postgres error with its SQLSTATE, any other with its text, or what
-- `fmt.Errorf("prefix: %w", err)` makes.
pub data Error : Type 0 where
  sentinel : Sentinel → Error
  pg_error : Bytes → Error
  other : Bytes → Error
  wrap : Bytes → Error → Error

-- `errors.Is`.
unfoldable pub error_is : Error → Sentinel → Bool
unfolding tag
error_is (sentinel s) target = tag s == tag target
error_is (pg_error code) target = false
error_is (other text) target = false
error_is (wrap prefix e) target = error_is e target

-- `errors.As` with a `*pgconn.PgError`, and the comparison of its code.
unfoldable pub has_pg_code : (Bytes → Bool) → Error → Bool
has_pg_code test (sentinel s) = false
has_pg_code test (pg_error code) = test code
has_pg_code test (other text) = false
has_pg_code test (wrap prefix e) = has_pg_code test e

sentinel_text : Sentinel → Bytes
sentinel_text not_found = bytes "customer not found"
sentinel_text duplicate_email = bytes "email already exists"
sentinel_text invalid_name = bytes "name must not be empty"
sentinel_text invalid_email = bytes "email must be a non-empty, valid address"
sentinel_text buffer_full = bytes "log buffer is full"
sentinel_text no_rows = bytes "no rows in result set"
sentinel_text redis_nil = bytes "redis: nil"
sentinel_text eof = bytes "EOF"
sentinel_text canceled = bytes "context canceled"

-- `err.Error()`.
unfoldable pub error_text : Error → Bytes
unfolding sentinel_text
error_text (sentinel s) = sentinel_text s
error_text (pg_error code) = code
error_text (other text) = text
error_text (wrap prefix e) = prefix ++ (bytes ": " ++ error_text e)
