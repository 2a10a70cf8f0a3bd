-- ===== src/Postgres/Customers/Listing.antt =====
-- About `List` of internal/adapter/postgres/customer_repository.go.
use crm_beginner.Base.Int.{ℤ, pos, negsuc, pos_part}
use crm_beginner.Base.{
  ℕ, zero, suc, ◌<◌, ◌≡◌, refl, ap, ◌∙◌, List, [], ◌∷◌, ◌++◌, append-nil, append_assoc, take, All,
  ok, arith,
}
use crm_beginner.Domain.{Customer}
use crm_beginner.Postgres.Customers.{
  Context, Stream, whole, breaks, scan_fails, collect, list_result, list,
}
use crm_beginner.Remote.{Link, up, refused, lost, exec}
use crm_beginner.Postgres.Table.Invariant.{Inv, Serial}
use crm_beginner.Postgres.Table.{Table, insert_by_id, order_by_id, select_customers}

insert_by_id-front :
    (r : Customer) (rows : List Customer) (n : ℕ)
    → r.id ≡ pos (pos_part r.id)
    → Serial n rows
    → All (λ q. pos_part r.id < pos_part q.id) rows
    → insert_by_id r rows ≡ r ∷ rows
unfolding insert_by_id
insert_by_id-front r [] n e s h = refl
insert_by_id-front r (q ∷ rows) n e s h = ground arith

-- The rows stand in the order of their ids.
order_by_id-Serial : (n : ℕ) (rows : List Customer) → Serial n rows → order_by_id rows ≡ rows
unfolding order_by_id
order_by_id-Serial n [] s = refl
order_by_id-Serial n (r ∷ rows) (a, b, c, s) =
    ap (insert_by_id r) (order_by_id-Serial n rows s) ∙ insert_by_id-front r rows n a s c

collect-ok :
    (stream : Stream) (rows out : List Customer) {all : List Customer}
    → collect stream rows out ≡ ok all
    → all ≡ out ++ rows
unfolding collect
collect-ok whole [] out h = rw append-nil (ground arith)
collect-ok whole (c ∷ rows) out h =
    collect-ok whole rows (out ++ c ∷ []) h ∙ append_assoc out (c ∷ []) rows
collect-ok (breaks n e) [] out h = cc
collect-ok (breaks zero e) (c ∷ rows) out h = cc
collect-ok (breaks (suc n) e) (c ∷ rows) out h =
    collect-ok (breaks n e) rows (out ++ c ∷ []) h ∙ append_assoc out (c ∷ []) rows
collect-ok (scan_fails n e) [] out h = rw append-nil (ground arith)
collect-ok (scan_fails zero e) (c ∷ rows) out h = cc
collect-ok (scan_fails (suc n) e) (c ∷ rows) out h =
    collect-ok (scan_fails n e) rows (out ++ c ∷ []) h ∙ append_assoc out (c ∷ []) rows

list_link :
    (link : Link) (stream : Stream) (limit : ℤ) (t : Table) {out : List Customer}
    → list_result stream (exec link (select_customers limit) t).0 ≡ ok out
    → (n : ℕ) × (limit ≡ pos n) × (out ≡ take n (order_by_id t.rows))
unfolding list_result select_customers
list_link up stream (pos n) t h = (n, refl, collect-ok stream (take n (order_by_id t.rows)) [] h)
list_link up stream (negsuc n) t h = cc
list_link (refused e) stream limit t h = cc
list_link (lost e) stream limit t h = cc

-- On a table that keeps its constraints, a list that `List` returns without an error is the first
-- rows by id, as many as the limit says, which is then not negative. A result that breaks off or
-- cannot be scanned is not returned as a shorter list.
pub list_complete :
    (ctx : Context) (limit : ℤ) (t : Table) {out : List Customer}
    → Inv t
    → (list ctx limit t).0 ≡ ok out
    → (n : ℕ) × (limit ≡ pos n) × (out ≡ take n t.rows)
unfolding list
list_complete ctx limit t v h =
    let (n, e, f) = list_link ctx.link ctx.stream limit t h in
    (n, e, f ∙ ap (take n) (order_by_id-Serial t.next_id t.rows v.serial))
