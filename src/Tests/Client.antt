-- ===== src/Tests/Client.antt =====
-- The client of cmd/client.
use crm_beginner.Base.{ap, [], ◌∷◌, ℕ, ◌+◌, ◌≡◌, ◌≢◌, refl, none, false, ok, arith}
use crm_beginner.Base.Int.{pos, eq_ℤ}
use crm_beginner.Client.Passes.{Passes, main-Passes}
use crm_beginner.Client.{main, direct}
use crm_beginner.Domain.Email.{new_email}
use crm_beginner.Postgres.Customers.Lookup.{taken}
use crm_beginner.Postgres.Table.{Table, find, insert_customer}
use crm_beginner.Postgres.Customers
use crm_beginner.Service
use crm_beginner.Service.World.Calls.{Answers}
use crm_beginner.Service.World.{Context, service, step}
use crm_beginner.Tests.Data.{deployment, at, ada, one_customer}
use crm_beginner.Tests.Store.{one_customer-Sound}
use crm_beginner.Text.{Bytes, bytes, trim_space, equal, to_lower, index_byte, contains_any}

abbrev times : ℕ → Context
times n = at (n + 10)

times_answer : (n : ℕ) → Answers (times n)
times_answer n = record { sql = refl; redis = tt }

abbrev own : Bytes
own = bytes "ali+1@example.com"

abbrev later : Bytes
later = bytes "ali.updated+1@example.com"

own_valid : new_email deployment.map_lower own ≡ ok (record { value = own })
unfolding new_email trim_space to_lower index_byte contains_any
own_valid = refl

later_valid : new_email deployment.map_lower later ≡ ok (record { value = later })
unfolding new_email trim_space to_lower index_byte contains_any
later_valid = refl

abbrev ada_table : Table
ada_table = record {
  rows =
      record {
        id = pos 1;
        name = ada;
        email = bytes "ada@example.com";
        created_at = 5;
        updated_at = 5;
      }
      ∷ [];
  next_id = 2;
}

only_ada : one_customer.table ≡ ada_table
unfolding step Service.create new_email trim_space to_lower index_byte contains_any Customers.create
    insert_customer
only_ada = refl

own_free : taken own one_customer.table ≡ false
unfolding equal
own_free = ap (taken own) only_ada

later_free : taken later one_customer.table ≡ false
unfolding equal
later_free = ap (taken later) only_ada

none_there : find (pos 999999) one_customer.table.rows ≡ none
unfolding find eq_ℤ
none_there = ap (λ t. find (pos 999999) t.rows) only_ada

not_next : one_customer.table.next_id ≢ 999999
not_next h = absurd (omega (arith, h, ap (λ t. t.next_id) only_ada))

main-Passes_example :
    Passes deployment
      (λ t. [])
      times
      times_answer
      one_customer.table.rows
      (main
        (direct (λ t. []) deployment.map_lower (service deployment))
        times
        own
        later
        one_customer)
main-Passes_example =
    main-Passes deployment (λ t. []) times times_answer own later (record { value = own })
      (record { value = later }) one_customer one_customer-Sound own_valid later_valid own_free
      later_free none_there not_next
