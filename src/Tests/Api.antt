-- ===== src/Tests/Api.antt =====
-- The handlers, the interceptors and the addresses.
use crm_beginner.Base.{none, ◌≡◌, ◌⊎◌, refl, ok, err}
use crm_beginner.Base.Int.{pos}
use crm_beginner.Domain.Email.{Email, new_email}
use crm_beginner.Domain.Email.Shape.{IsAddress, new_email-exact}
use crm_beginner.Domain.{sentinel, invalid_email}
use crm_beginner.Grpc.Customers.Codes.{
  CreateReply, create_customer-codes, get_customer-create_customer,
}
use crm_beginner.Grpc.Customers.{CreateCustomerResponse, create_customer, get_customer}
use crm_beginner.Postgres.Customers
use crm_beginner.Postgres.Table.{insert_customer}
use crm_beginner.Service
use crm_beginner.Service.World.{service, step}
use crm_beginner.Tests.Data.{deployment, at, ada_email, one_customer}
use crm_beginner.Tests.Store.{one_customer-Sound}
use crm_beginner.Text.{Bytes, bytes, trim_space, to_lower, index_byte, contains_any}
use crm_beginner.Text.Decimal.{decimal}
use crm_beginner.Grpc.Customers.{list_customers, taken, to_proto}
use crm_beginner.Grpc.Customers.Streaming.{list_customers_complete}
use crm_beginner.Service.World.Paging.{page_size}
use crm_beginner.Postgres.Table.{select_customers, order_by_id}
use crm_beginner.Service.{clamp}
use crm_beginner.Base.{take, map}

create_customer-codes_example :
    CreateReply decimal deployment (at 6) (bytes " ") ada_email one_customer
create_customer-codes_example =
    create_customer-codes decimal deployment (at 6) (bytes " ") ada_email one_customer refl
      one_customer-Sound

abbrev bob_email : Bytes
bob_email = bytes "Bob@Example.com"

abbrev created : CreateCustomerResponse
created = record { id = pos 2; message = bytes "customer created" }

bob_created :
    (create_customer decimal deployment.map_lower
      (service deployment)
      (at 6)
      (bytes "Bob")
      bob_email
      one_customer).0
    ≡ ok created
unfolding create_customer Customers.list step Service.create new_email Customers.create
    insert_customer trim_space to_lower index_byte contains_any
bob_created = refl

get_customer-create_customer_example :
    (email : Email) × (new_email deployment.map_lower bob_email ≡ ok email)
    × ((get_customer decimal deployment.map_lower
          (service deployment)
          (at 9)
          (pos 2)
          (create_customer decimal deployment.map_lower
            (service deployment)
            (at 6)
            (bytes "Bob")
            bob_email
            one_customer).1).0
        ≡ ok (record {
          id = pos 2;
          name = bytes "Bob";
          email = email.value;
          created_at = decimal 6;
          updated_at = decimal 6;
        }))
get_customer-create_customer_example =
    get_customer-create_customer decimal deployment (at 6) (at 9) (bytes "Bob") bob_email
      one_customer created refl refl one_customer-Sound bob_created

new_email-exact_example :
    let v = to_lower (λ s. s) (trim_space ada_email) in
    (IsAddress v × (new_email (λ s. s) ada_email ≡ ok (record { value = v })))
    ⊎ (¬ IsAddress v × (new_email (λ s. s) ada_email ≡ err (sentinel invalid_email)))
new_email-exact_example = new_email-exact (λ s. s) ada_email

ends_ok :
    (list_customers decimal deployment.map_lower
      (service deployment)
      (at 6)
      (pos 7)
      taken
      one_customer).0.1
    ≡ none
unfolding list_customers Service.list Customers.list step Service.create new_email Customers.create
    insert_customer select_customers order_by_id clamp trim_space to_lower index_byte contains_any
ends_ok = refl

list_customers_complete_example :
    (list_customers decimal deployment.map_lower
      (service deployment)
      (at 6)
      (pos 7)
      taken
      one_customer).0.0
    ≡ map
        (to_proto decimal deployment.map_lower (service deployment))
        (take (page_size (pos 7)) one_customer.table.rows)
list_customers_complete_example =
    list_customers_complete decimal deployment (at 6) (pos 7) taken one_customer
      one_customer-Sound.inv ends_ok
