-- ===== src/Postgres/Customers/Invariant.antt =====
-- About internal/adapter/postgres/customer_repository.go: the constraints of the table.
use crm_beginner.Base.Int.{ℤ, pos, negsuc}
use crm_beginner.Base.{◌≡◌, refl, Result, arith}
use crm_beginner.Domain.{Customer, Error}
use crm_beginner.Postgres.Customers.{Context, create, get_by_id, update, delete, list}
use crm_beginner.Remote.{Link, up, refused, lost, exec}
use crm_beginner.Postgres.Table.Invariant.{
  Inv, insert_customer-Inv, update_customer-Inv, delete_customer-Inv,
}
use crm_beginner.Postgres.Table.{
  Table, insert_customer, select_customer, update_customer, delete_customer, select_customers,
}

exec-Inv :
    {A : Type 0} (link : Link) (run : Table → Result Error A × Table) (t : Table)
    → Inv t
    → Inv (run t).1
    → Inv (exec link run t).1
exec-Inv up run t v w = w
exec-Inv (refused e) run t v w = v
exec-Inv (lost e) run t v w = w

pub create-Inv : (ctx : Context) (c : Customer) (t : Table) → Inv t → Inv (create ctx c t).1
unfolding create
create-Inv ctx c t v =
    exec-Inv ctx.link (insert_customer ctx.now c.name c.email) t v
      (insert_customer-Inv ctx.now c.name c.email t v)

pub update-Inv : (ctx : Context) (c : Customer) (t : Table) → Inv t → Inv (update ctx c t).1
unfolding update
update-Inv ctx c t v =
    exec-Inv ctx.link (update_customer ctx.now c.id c.name c.email) t v
      (update_customer-Inv ctx.now c.id c.name c.email t v)

pub delete-Inv : (ctx : Context) (id : ℤ) (t : Table) → Inv t → Inv (delete ctx id t).1
unfolding delete
delete-Inv ctx id t v = exec-Inv ctx.link (delete_customer id) t v (delete_customer-Inv id t v)

select_customer-same : (id : ℤ) (t : Table) → (select_customer id t).1 ≡ t
unfolding select_customer
select_customer-same id t = ground arith

exec_same :
    {A : Type 0} (link : Link) (run : Table → Result Error A × Table) (t : Table)
    → (run t).1 ≡ t
    → (exec link run t).1 ≡ t
exec_same up run t h = h
exec_same (refused e) run t h = refl
exec_same (lost e) run t h = h

-- The reading methods change nothing.
pub get_by_id-same : (ctx : Context) (id : ℤ) (t : Table) → (get_by_id ctx id t).1 ≡ t
unfolding get_by_id
get_by_id-same ctx id t = exec_same ctx.link (select_customer id) t (select_customer-same id t)

select_customers-same : (limit : ℤ) (t : Table) → (select_customers limit t).1 ≡ t
unfolding select_customers
select_customers-same (pos n) t = refl
select_customers-same (negsuc n) t = refl

pub list-same : (ctx : Context) (limit : ℤ) (t : Table) → (list ctx limit t).1 ≡ t
unfolding list
list-same ctx limit t =
    exec_same ctx.link (select_customers limit) t (select_customers-same limit t)
