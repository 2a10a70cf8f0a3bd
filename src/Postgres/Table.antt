-- ===== src/Postgres/Table.antt =====
-- The table `customers` of db/migrations (0001, 0002) and the statements that
-- internal/adapter/postgres/customer_repository.go runs on it.
pub mod Invariant
pub mod Find
use crm_beginner.Base.{
  ℕ, suc, ◌+◌, Bool, true, false, not, ◌&&◌, Option, none, some, List, [], ◌∷◌, ◌++◌, map, any,
  take, if◌then◌else◌, Result, ok, err,
}
use crm_beginner.Base.Int.{ℤ, pos, negsuc, eq_ℤ, leb_ℤ}
use crm_beginner.Domain.{Customer, Error, sentinel, no_rows, pg_error}
use crm_beginner.Text.{Bytes, bytes, equal}

-- The rows, and the sequence behind `BIGSERIAL`.
pub record Table : Type 0 where
  pub rows : List Customer
  pub next_id : ℕ

abbrev pub empty : Table
empty = record { rows = []; next_id = 1 }

unfoldable pub find : ℤ → List Customer → Option Customer
find id [] = none
find id (r ∷ rows) = if eq_ℤ r.id id then some r else find id rows

-- A row other than `id` that holds `email`.
unfoldable pub taken_beside : ℤ → Bytes → List Customer → Bool
taken_beside id email = any (λ r. equal r.email email && not (eq_ℤ r.id id))

abbrev pub unique_violation : Error
unique_violation = pg_error (bytes "23505")

abbrev pub new_row : ℕ → ℕ → Bytes → Bytes → Customer
new_row now id name email = record {
  id = pos id;
  name = name;
  email = email;
  created_at = now;
  updated_at = now;
}

-- `INSERT INTO customers (name, email) … RETURNING …`. The sequence moves on also when the insert
-- is refused.
unfoldable pub insert_customer : ℕ → Bytes → Bytes → Table → Result Error Customer × Table
insert_customer now name email t =
    let r = new_row now t.next_id name email in
    if any (λ q. equal q.email email) t.rows
    then (err unique_violation, record t { next_id = t.next_id + 1 })
    else (ok r, record { rows = t.rows ++ (r ∷ []); next_id = t.next_id + 1 })

-- `SELECT … FROM customers WHERE id = $1`.
unfoldable pub select_customer : ℤ → Table → Result Error Customer × Table
select_customer id t = elim (find id t.rows) [
  | none ↦ (err (sentinel no_rows), t)
  | some r ↦ (ok r, t)
]

abbrev pub changed : ℕ → Bytes → Bytes → Customer → Customer
changed now name email r = record r { name = name; email = email; updated_at = now }

unfoldable pub change : ℤ → (Customer → Customer) → List Customer → List Customer
change id f = map (λ r. if eq_ℤ r.id id then f r else r)

-- `UPDATE customers SET name = $1, email = $2, updated_at = now() WHERE id = $3 RETURNING …`.
unfoldable pub update_customer : ℕ → ℤ → Bytes → Bytes → Table → Result Error Customer × Table
update_customer now id name email t = elim (find id t.rows) [
  | none ↦ (err (sentinel no_rows), t)
  | some r ↦ if taken_beside id email t.rows then (err unique_violation, t) else (
    ok (changed now name email r),
    record t { rows = change id (changed now name email) t.rows },
  )
]

unfoldable pub remove : ℤ → List Customer → List Customer
remove id [] = []
remove id (r ∷ rows) = let rest = remove id rows in if eq_ℤ r.id id then rest else r ∷ rest

unfoldable pub count_id : ℤ → List Customer → ℕ
count_id id [] = 0
count_id id (r ∷ rows) = (if eq_ℤ r.id id then 1 else 0) + count_id id rows

-- `DELETE FROM customers WHERE id = $1`; the result is the number of rows affected.
unfoldable pub delete_customer : ℤ → Table → Result Error ℕ × Table
delete_customer id t = (ok (count_id id t.rows), record t { rows = remove id t.rows })

unfoldable pub insert_by_id : Customer → List Customer → List Customer
insert_by_id r [] = r ∷ []
insert_by_id r (q ∷ rows) =
    let rest = insert_by_id r rows in if leb_ℤ r.id q.id then r ∷ q ∷ rows else q ∷ rest

-- `ORDER BY id`.
unfoldable pub order_by_id : List Customer → List Customer
unfolding insert_by_id
order_by_id [] = []
order_by_id (r ∷ rows) = insert_by_id r (order_by_id rows)

-- `SELECT … FROM customers ORDER BY id LIMIT $1`. Postgres refuses a negative limit.
unfoldable pub select_customers : ℤ → Table → Result Error (List Customer) × Table
select_customers (pos n) t = (ok (take n (order_by_id t.rows)), t)
select_customers (negsuc n) t = (err (pg_error (bytes "2201W")), t)
