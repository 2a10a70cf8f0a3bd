-- ===== src/Grpc/Status.antt =====
-- internal/adapter/grpc/errors.go: domain errors as gRPC statuses.
use crm_beginner.Base.{◌||◌, if◌then◌else◌, Result, ok, err}
use crm_beginner.Domain.{
  Error, not_found, duplicate_email, invalid_name, invalid_email, error_is, error_text,
}
use crm_beginner.Text.{Bytes, bytes}

pub data Code : Type 0 where
  invalid_argument not_found_code already_exists internal unavailable : Code

pub record Status : Type 0 where
  pub code : Code
  pub message : Bytes

-- `toGRPCError`.
unfoldable pub to_grpc_error : Error → Status
unfolding error_is error_text
to_grpc_error e =
    if error_is e not_found
    then record { code = not_found_code; message = error_text e }
    else if error_is e duplicate_email
    then record { code = already_exists; message = error_text e }
    else if error_is e invalid_name || error_is e invalid_email
    then record { code = invalid_argument; message = error_text e }
    else record { code = internal; message = bytes "internal error" }

-- `if err != nil { return nil, toGRPCError(err) }`, and otherwise the response.
abbrev pub respond {ℓ κ} : {A : Type ℓ} {B : Type κ} → (A → B) → Result Error A → Result Status B
respond f (ok a) = ok (f a)
respond f (err e) = err (to_grpc_error e)
