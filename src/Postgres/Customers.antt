-- ===== src/Postgres/Customers.antt =====
-- internal/adapter/postgres/customer_repository.go: the repository of customers.
pub mod Invariant
pub mod Lookup
pub mod Frame
pub mod Listing
pub mod Rows
use crm_beginner.Base.{
  ℕ, zero, suc, Bool, true, false, List, [], ◌∷◌, ◌++◌, ◌==◌, if◌then◌else◌, Result, ok, err,
}
use crm_beginner.Base.Int.{ℤ}
use crm_beginner.Domain.Ports.{CustomerRepository}
use crm_beginner.Domain.{
  Customer, Error, sentinel, wrap, not_found, no_rows, duplicate_email, error_is, has_pg_code,
}
use crm_beginner.Postgres.Table.{
  Table, insert_customer, select_customer, update_customer, delete_customer, select_customers,
}
use crm_beginner.Remote.{Link, exec}
use crm_beginner.Text.{Bytes, bytes, equal}

-- What the rows of a query do while they are read: all arrive, the connection breaks behind some of
-- them, or one cannot be scanned.
pub data Stream : Type 0 where
  whole : Stream
  breaks scan_fails : ℕ → Error → Stream

-- What a call under a context meets: the time of the server, and its connection.
pub record Context : Type 0 where
  pub now : ℕ
  pub link : Link
  pub stream : Stream

unfoldable pub is_unique_violation : Error → Bool
unfolding has_pg_code equal
is_unique_violation = has_pg_code (λ code. equal code (bytes "23505"))

-- How `Create` reads the outcome of its statement.
insert_result : Result Error Customer → Result Error Customer
unfolding is_unique_violation
insert_result (ok out) = ok out
insert_result (err e) =
    if is_unique_violation e
    then err (sentinel duplicate_email)
    else err (wrap (bytes "insert customer") e)

-- `Create`. The id of its argument is not used.
unfoldable pub create : Context → Customer → Table → Result Error Customer × Table
unfolding insert_result
create ctx c t =
    let (r, t') = exec ctx.link (insert_customer ctx.now c.name c.email) t in (insert_result r, t')

select_result : Result Error Customer → Result Error Customer
unfolding error_is
select_result (ok c) = ok c
select_result (err e) =
    if error_is e no_rows then err (sentinel not_found) else err (wrap (bytes "select customer") e)

-- `GetByID`.
unfoldable pub get_by_id : Context → ℤ → Table → Result Error Customer × Table
unfolding select_result
get_by_id ctx id t = let (r, t') = exec ctx.link (select_customer id) t in (select_result r, t')

update_result : Result Error Customer → Result Error Customer
unfolding error_is is_unique_violation
update_result (ok out) = ok out
update_result (err e) =
    if error_is e no_rows
    then err (sentinel not_found)
    else if is_unique_violation e
    then err (sentinel duplicate_email)
    else err (wrap (bytes "update customer") e)

-- `Update`.
unfoldable pub update : Context → Customer → Table → Result Error Customer × Table
unfolding update_result
update ctx c t =
    let (r, t') = exec ctx.link (update_customer ctx.now c.id c.name c.email) t in
    (update_result r, t')

delete_result : Result Error ℕ → Result Error (Unit {0})
delete_result (ok affected) = if affected == 0 then err (sentinel not_found) else ok tt
delete_result (err e) = err (wrap (bytes "delete customer") e)

-- `Delete`.
unfoldable pub delete : Context → ℤ → Table → Result Error (Unit {0}) × Table
unfolding delete_result
delete ctx id t = let (r, t') = exec ctx.link (delete_customer id) t in (delete_result r, t')

-- The loop of `List` over `rows.Next`, with the check of `rows.Err` behind it.
collect : Stream → List Customer → List Customer → Result Error (List Customer)
collect whole [] out = ok out
collect whole (c ∷ rows) out = collect whole rows (out ++ (c ∷ []))
collect (breaks n e) [] out = err (wrap (bytes "iterate customers") e)
collect (breaks zero e) (c ∷ rows) out = err (wrap (bytes "iterate customers") e)
collect (breaks (suc n) e) (c ∷ rows) out = collect (breaks n e) rows (out ++ (c ∷ []))
collect (scan_fails n e) [] out = ok out
collect (scan_fails zero e) (c ∷ rows) out = err (wrap (bytes "scan customer") e)
collect (scan_fails (suc n) e) (c ∷ rows) out = collect (scan_fails n e) rows (out ++ (c ∷ []))

list_result : Stream → Result Error (List Customer) → Result Error (List Customer)
unfolding collect
list_result stream (ok rows) = collect stream rows []
list_result stream (err e) = err (wrap (bytes "select customers") e)

-- `List`.
unfoldable pub list : Context → ℤ → Table → Result Error (List Customer) × Table
unfolding list_result
list ctx limit t =
    let (r, t') = exec ctx.link (select_customers limit) t in (list_result ctx.stream r, t')

unfoldable pub repository : CustomerRepository Context Table
unfolding create get_by_id update delete list
repository = record {
  create = create;
  get_by_id = get_by_id;
  update = update;
  delete = delete;
  list = list;
}
