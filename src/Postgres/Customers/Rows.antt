-- ===== src/Postgres/Customers/Rows.antt =====
-- About internal/adapter/postgres/customer_repository.go: the rows that a call leaves.
use crm_beginner.Base.Int.{ℤ, eq_ℤ_self}
use crm_beginner.Base.{◌≡◌, refl, true, false, none, some, List, [], ◌∷◌, ◌++◌, any, arith}
use crm_beginner.Domain.{Customer}
use crm_beginner.Postgres.Customers.Lookup.{taken}
use crm_beginner.Postgres.Customers.{Context, create, update, delete}
use crm_beginner.Postgres.Table.{
  Table, find, taken_beside, new_row, changed, change, remove, insert_customer, update_customer,
  delete_customer,
}
use crm_beginner.Remote.{up}
use crm_beginner.Text.Search.{equal_self}
use crm_beginner.Text.{Bytes, equal}

pub create-rows :
    (ctx : Context) (c : Customer) (t : Table)
    → ctx.link ≡ up
    → taken c.email t ≡ false
    → (create ctx c t).1.rows ≡ t.rows ++ (new_row ctx.now t.next_id c.name c.email ∷ [])
unfolding create insert_customer
create-rows ctx c t l h = ground arith

pub update-rows :
    (ctx : Context) (c r : Customer) (t : Table)
    → ctx.link ≡ up
    → find c.id t.rows ≡ some r
    → taken_beside c.id c.email t.rows ≡ false
    → (update ctx c t).1.rows ≡ change c.id (changed ctx.now c.name c.email) t.rows
unfolding update update_customer
update-rows ctx c r t l h k = ground arith

pub delete-rows :
    (ctx : Context) (id : ℤ) (t : Table)
    → ctx.link ≡ up
    → (delete ctx id t).1.rows ≡ remove id t.rows
unfolding delete delete_customer
delete-rows ctx id t l = ground arith

-- A row behind others of other ids is changed alone.
pub change-append :
    (f : Customer → Customer) (rows : List Customer) (r : Customer)
    → find r.id rows ≡ none
    → change r.id f (rows ++ (r ∷ [])) ≡ rows ++ (f r ∷ [])
unfolding change find
change-append f [] r h = rw (eq_ℤ_self r.id) refl
change-append f (q ∷ rows) r h = ground (arith, change-append f rows r)

pub remove-append :
    (rows : List Customer) (r : Customer)
    → find r.id rows ≡ none
    → remove r.id (rows ++ (r ∷ [])) ≡ rows
unfolding remove find
remove-append [] r h = rw (eq_ℤ_self r.id) refl
remove-append (q ∷ rows) r h = ground (arith, remove-append rows r)

pub remove-none : (id : ℤ) (rows : List Customer) → find id rows ≡ none → remove id rows ≡ rows
unfolding remove find
remove-none id [] h = refl
remove-none id (q ∷ rows) h = ground (arith, remove-none id rows)

pub taken_beside-append :
    (email : Bytes) (rows : List Customer) (r : Customer)
    → any (λ q. equal q.email email) rows ≡ false
    → taken_beside r.id email (rows ++ (r ∷ [])) ≡ false
unfolding taken_beside
taken_beside-append email [] r h = ground (arith, eq_ℤ_self r.id)
taken_beside-append email (q ∷ rows) r h = ground (arith, taken_beside-append email rows r)

pub taken-append :
    (rows : List Customer) (r : Customer)
    → any (λ q. equal q.email r.email) (rows ++ (r ∷ [])) ≡ true
taken-append [] r = ground (arith, equal_self r.email)
taken-append (q ∷ rows) r = ground (arith, taken-append rows r)
