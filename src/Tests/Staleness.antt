-- ===== src/Tests/Staleness.antt =====
-- A lookup that an update overtakes.
use crm_beginner.Base.Int.{pos, eq_ℤ}
use crm_beginner.Base.{◌≡◌, refl, none, some, List, [], ◌∷◌}
use crm_beginner.Domain.{Customer}
use crm_beginner.Domain.Email.{new_email}
use crm_beginner.Postgres.Customers
use crm_beginner.Postgres.Table.{
  find, insert_customer, select_customer, update_customer, taken_beside, change,
}
use crm_beginner.Redis
use crm_beginner.Redis.Stored.{held}
use crm_beginner.Service
use crm_beginner.Service.World
use crm_beginner.Service.World.Interleaved.Staleness.{WasRow, run-WasRow}
use crm_beginner.Service.World.Interleaved.{Move, Shop, looks, goes_on, updates, open_shop, run}
use crm_beginner.Tests.Data.{deployment, at, ada, one_customer}
use crm_beginner.Tests.Store.{one_customer-Sound}
use crm_beginner.Text.Decimal.{decimal_int}
use crm_beginner.Text.{bytes, trim_space, to_lower, index_byte, contains_any, equal}

-- The lookup reads the row, the update writes and invalidates, and the lookup fills the cache.
abbrev overtaken : List Move
overtaken =
    looks (at 6) (pos 1)
    ∷ goes_on (at 6) 0
    ∷ updates (at 7) (pos 1) ada (bytes "new@example.com")
    ∷ goes_on (at 7) 0
    ∷ goes_on (at 8) 0
    ∷ []

abbrev behind : Shop
behind = elim (run deployment overtaken (open_shop one_customer)) [
  | none ↦ open_shop one_customer
  | some s ↦ s
]

abbrev old : Customer
old = record {
  id = pos 1;
  name = ada;
  email = bytes "ada@example.com";
  created_at = 5;
  updated_at = 5;
}

overtaken_happens : run deployment overtaken (open_shop one_customer) ≡ some behind
unfolding find run Redis.get Redis.run_get Redis.set Redis.run_set Redis.invalidate Redis.run_del
    Redis.key open_shop World.step Service.create trim_space new_email to_lower index_byte
    contains_any equal eq_ℤ Customers.create insert_customer Customers.update update_customer
    taken_beside change Customers.get_by_id select_customer decimal_int
overtaken_happens = refl

-- The cache holds the old row, and the table the new one.
still_held : held deployment.codec deployment.handle behind.world.store (pos 1) ≡ some old
unfolding find run Redis.get Redis.run_get Redis.set Redis.run_set Redis.invalidate Redis.run_del
    Redis.key open_shop World.step Service.create trim_space new_email to_lower index_byte
    contains_any equal eq_ℤ Customers.create insert_customer Customers.update update_customer
    taken_beside change Customers.get_by_id select_customer decimal_int
still_held = refl

new_row_there :
    find (pos 1) behind.world.table.rows
    ≡ some (record old { email = bytes "new@example.com"; updated_at = 7 })
unfolding find run Redis.get Redis.run_get Redis.set Redis.run_set Redis.invalidate Redis.run_del
    Redis.key open_shop World.step Service.create trim_space new_email to_lower index_byte
    contains_any equal eq_ℤ Customers.create insert_customer Customers.update update_customer
    taken_beside change Customers.get_by_id select_customer decimal_int
new_row_there = refl

run-WasRow_example : WasRow behind.past (pos 1) old
run-WasRow_example =
    run-WasRow deployment overtaken one_customer behind one_customer-Sound overtaken_happens (pos 1)
      old still_held
