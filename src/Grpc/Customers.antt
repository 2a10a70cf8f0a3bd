-- ===== src/Grpc/Customers.antt =====
-- internal/adapter/grpc/customer_handler.go and mapper.go: the handlers of CustomerService.
pub mod Codes
pub mod Streaming
use crm_beginner.Base.Int.{ℤ}
use crm_beginner.Base.{ℕ, zero, suc, Option, none, some, List, [], ◌∷◌, map, Result, ok, err}
use crm_beginner.Domain.{Customer, Error}
use crm_beginner.Grpc.Status.{Status, to_grpc_error, respond}
use crm_beginner.Service
use crm_beginner.Service.{CustomerService}
use crm_beginner.Text.{Bytes, bytes}

-- The messages of proto/customerpb/customer.proto that the handlers return.
pub record CreateCustomerResponse : Type 0 where
  pub id : ℤ
  pub message : Bytes

pub record GetCustomerResponse : Type 0 where
  pub id : ℤ
  pub name : Bytes
  pub email : Bytes
  pub created_at : Bytes
  pub updated_at : Bytes

pub record DeleteCustomerResponse : Type 0 where
  pub message : Bytes

-- What becomes of the messages sent on a stream: all are taken, or the client hangs up behind some
-- of them.
pub data Sending : Type 0 where
  taken : Sending
  hangs_up : ℕ → Status → Sending

-- `for _, c := range customers { stream.Send(toProto(c)) }`: what was sent, and the status.
send_all : Sending → List GetCustomerResponse → List GetCustomerResponse × Option Status
send_all taken [] = ([], none)
send_all taken (m ∷ messages) = let rest = send_all taken messages in (m ∷ rest.0, rest.1)
send_all (hangs_up n status) [] = ([], none)
send_all (hangs_up zero status) (m ∷ messages) = ([], some status)
send_all (hangs_up (suc n) status) (m ∷ messages) =
    let rest = send_all (hangs_up n status) messages in (m ∷ rest.0, rest.1)

-- `format_time` is `Format(time.RFC3339)` and `map_lower` is `strings.Map(unicode.ToLower, ·)`.
module _ {C S : Type 0} (format_time : ℕ → Bytes) (map_lower : Bytes → Bytes)
    (svc : CustomerService C S) where
  -- `toProto`.
  unfoldable pub to_proto : Customer → GetCustomerResponse
  to_proto c = record {
    id = c.id;
    name = c.name;
    email = c.email;
    created_at = format_time c.created_at;
    updated_at = format_time c.updated_at;
  }

  -- `CreateCustomer`.
  unfoldable pub create_customer : C → Bytes → Bytes → S → Result Status CreateCustomerResponse × S
  create_customer ctx name email w =
      let r = Service.create map_lower svc ctx name email w in
      (respond (λ c. record { id = c.id; message = bytes "customer created" }) r.0, r.1)

  -- `GetCustomer`.
  unfoldable pub get_customer : C → ℤ → S → Result Status GetCustomerResponse × S
  get_customer ctx id w =
      let r = Service.get_by_id map_lower svc ctx id w in (respond to_proto r.0, r.1)

  -- `UpdateCustomer`.
  unfoldable pub update_customer : C → ℤ → Bytes → Bytes → S → Result Status GetCustomerResponse × S
  update_customer ctx id name email w =
      let r = Service.update map_lower svc ctx id name email w in (respond to_proto r.0, r.1)

  -- `DeleteCustomer`.
  unfoldable pub delete_customer : C → ℤ → S → Result Status DeleteCustomerResponse × S
  delete_customer ctx id w =
      let r = Service.delete map_lower svc ctx id w in
      (respond (λ _. record { message = bytes "customer deleted" }) r.0, r.1)

  stream_result : Sending → Result Error (List Customer) → List GetCustomerResponse × Option Status
  stream_result sending (err e) = ([], some (to_grpc_error e))
  stream_result sending (ok customers) = send_all sending (map to_proto customers)

  -- `ListCustomers`: the messages sent and the status that ends the stream, `none` for OK.
  unfoldable pub list_customers :
      C → ℤ → Sending → S → (List GetCustomerResponse × Option Status) × S
  unfolding stream_result send_all
  list_customers ctx limit sending w =
      let r = Service.list map_lower svc ctx limit w in (stream_result sending r.0, r.1)
