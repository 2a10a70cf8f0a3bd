-- ===== src/Service/World/Paging.antt =====
-- `List` of internal/service/customer.go, over the repository: the size of a page.
use crm_beginner.Base.Int.{ℤ, pos, negsuc}
use crm_beginner.Base.{
  ℕ, zero, suc, ◌≤◌, ◌≡◌, refl, ◌∙◌, ap, sym, ltb, if◌then◌else◌, ok, List, arith, take,
}
use crm_beginner.Domain.{Customer}
use crm_beginner.Postgres.Customers.Listing.{list_complete}
use crm_beginner.Postgres.Table.Invariant.{Inv}
use crm_beginner.Service
use crm_beginner.Service.World.{World, Context, Deployment, service}
use crm_beginner.Service.{clamp}

-- The number of customers asked for: 100 for 0 or less, and at most 500.
abbrev pub page_size : ℤ → ℕ
page_size (pos zero) = 100
page_size (pos (suc n)) = if ltb 500 (suc n) then 500 else suc n
page_size (negsuc n) = 100

clamp-page_size : (limit : ℤ) → clamp limit ≡ pos (page_size limit)
unfolding clamp
clamp-page_size (pos zero) = refl
clamp-page_size (pos (suc n)) = ground arith
clamp-page_size (negsuc n) = ground arith

page_size-bounds : (limit : ℤ) → (1 ≤ page_size limit) × (page_size limit ≤ 500)
page_size-bounds (pos zero) = (omega arith, omega arith)
page_size-bounds (pos (suc n)) = (ground arith, ground arith)
page_size-bounds (negsuc n) = (omega arith, omega arith)

pos-injective : {n m : ℕ} → pos n ≡ pos m → n ≡ m
pos-injective h = cc

module _ (d : Deployment) where
  -- On a table that keeps its constraints, a list that the service returns without an error is the
  -- first page of the rows, in the order of their ids. The page has 100 rows for a limit of 0 or
  -- less, else as many as the limit says but at most 500: its size is between 1 and 500.
  pub list-page :
      (ctx : Context) (limit : ℤ) (w : World) (out : List Customer)
      → Inv w.table
      → (Service.list d.map_lower (service d) ctx limit w).0 ≡ ok out
      → (out ≡ take (page_size limit) w.table.rows)
        × (1 ≤ page_size limit)
        × (page_size limit ≤ 500)
  unfolding Service.list
  list-page ctx limit w out v h =
      let (n, e, same) = list_complete ctx.sql (clamp limit) w.table v h in
      let size : n ≡ page_size limit = pos-injective (sym e ∙ clamp-page_size limit) in
      (
        same ∙ ap (λ k. take k w.table.rows) size,
        (page_size-bounds limit).0,
        (page_size-bounds limit).1,
      )
