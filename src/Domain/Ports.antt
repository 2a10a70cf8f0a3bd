-- ===== src/Domain/Ports.antt =====
-- internal/domain/repository.go and log_repository.go: the ports. A method takes its context, its
-- arguments and the state of the outside, and returns its result with the new state.
use crm_beginner.Base.{List, Option, Result}
use crm_beginner.Base.Int.{ℤ}
use crm_beginner.Domain.{Customer, LogEntry, Error}

pub record CustomerRepository (C S : Type 0) : Type 0 where
  pub create : C → Customer → S → Result Error Customer × S
  pub get_by_id : C → ℤ → S → Result Error Customer × S
  pub update : C → Customer → S → Result Error Customer × S
  pub delete : C → ℤ → S → Result Error (Unit {0}) × S
  pub list : C → ℤ → S → Result Error (List Customer) × S

-- `get` returns `none` for a miss.
pub record CustomerCache (C S : Type 0) : Type 0 where
  pub get : C → ℤ → S → Option Customer
  pub set : C → Customer → S → S
  pub invalidate : C → ℤ → S → S

pub record LogRepository (C S : Type 0) : Type 0 where
  pub bulk_insert : C → List LogEntry → S → Result Error (Unit {0}) × S
