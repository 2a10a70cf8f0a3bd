-- ===== src/Tests/Store.antt =====
-- The service, its cache and its table.
use crm_beginner.Base.Int.{ℤ, pos, eq_ℤ}
use crm_beginner.Base.{◌≡◌, refl, none, some, List, [], ◌∷◌, ok, err, if◌then◌else◌}
use crm_beginner.Domain.{Customer, sentinel, not_found}
use crm_beginner.Postgres.Customers.{delete}
use crm_beginner.Postgres.Customers.Lookup.{
  CreateOutcome, UpdateOutcome, create-exact, update-exact, delete-exact,
}
use crm_beginner.Postgres.Table.Invariant.{empty-Inv}
use crm_beginner.Postgres.Table.{find, new_row}
use crm_beginner.Service.World.Coherence.{Sound, step-Sound}
use crm_beginner.Service.World.Transparency.{run-same, bare, new_world-Coherent}
use crm_beginner.Service.World.{
  new_world, Context, Call, creates, gets, updates, deletes, step, run,
}
use crm_beginner.Tests.Data.{deployment, at, ada, ada_email, one_customer}
use crm_beginner.Text.{bytes}

abbrev history : List (Context × Call)
history =
    (at 5, creates ada ada_email)
    ∷ (at 6, gets (pos 1))
    ∷ (at 7, updates (pos 1) (bytes "Ada L.") (bytes "ada@example.org"))
    ∷ (at 8, gets (pos 1))
    ∷ (at 9, deletes (pos 1))
    ∷ (at 10, gets (pos 1))
    ∷ []

run-same_example :
    ((run deployment history new_world).0 ≡ (run (bare deployment) history new_world).0)
    × ((run deployment history new_world).1.table
        ≡ (run (bare deployment) history new_world).1.table)
run-same_example =
    run-same deployment history
      ((tt, tt), ((tt, refl), (((tt, tt), tt), ((tt, refl), (((tt, tt), tt), ((tt, refl), tt))))))

new_world-Sound : Sound deployment new_world
new_world-Sound = record { inv = empty-Inv; coherent = new_world-Coherent deployment }

pub one_customer-Sound : Sound deployment one_customer
one_customer-Sound =
    step-Sound deployment (at 5) (creates ada ada_email) new_world tt new_world-Sound

step-Sound_example :
    Sound deployment (step deployment (at 6) (updates (pos 1) ada (bytes "a@b")) one_customer).1
step-Sound_example =
    step-Sound deployment (at 6) (updates (pos 1) ada (bytes "a@b")) one_customer (tt, tt)
      one_customer-Sound

abbrev row : Customer
row = new_row 5 1 ada (bytes "ada@example.com")

create-exact_example : CreateOutcome (at 6).sql row one_customer.table
create-exact_example = create-exact (at 6).sql row one_customer.table refl one_customer-Sound.inv

update-exact_example : UpdateOutcome (at 6).sql row one_customer.table
update-exact_example = update-exact (at 6).sql row one_customer.table refl

delete-exact_example :
    ((delete (at 6).sql (pos 1) one_customer.table).0
      ≡ (elim (find (pos 1) one_customer.table.rows) [
        | none ↦ err (sentinel not_found)
        | some r ↦ ok tt
      ]))
    × ((j : ℤ)
        → find j (delete (at 6).sql (pos 1) one_customer.table).1.rows
          ≡ (if eq_ℤ (pos 1) j then none else find j one_customer.table.rows))
delete-exact_example = delete-exact (at 6).sql (pos 1) one_customer.table refl
