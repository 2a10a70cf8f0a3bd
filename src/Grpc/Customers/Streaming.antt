-- ===== src/Grpc/Customers/Streaming.antt =====
-- About `ListCustomers` of internal/adapter/grpc/customer_handler.go.
use crm_beginner.Base.Int.{ℤ}
use crm_beginner.Base.{
  ℕ, zero, suc, ◌≡◌, refl, ap, ◌∙◌, none, List, [], ◌∷◌, map, take, Result-cases, inl, inr,
}
use crm_beginner.Grpc.Customers.{
  GetCustomerResponse, Sending, taken, hangs_up, send_all, stream_result, to_proto, list_customers,
}
use crm_beginner.Postgres.Table.Invariant.{Inv}
use crm_beginner.Service
use crm_beginner.Service.World.Paging.{page_size, list-page}
use crm_beginner.Service.World.{World, Context, Deployment, service}
use crm_beginner.Text.{Bytes}

send_all-none :
    (sending : Sending) (messages : List GetCustomerResponse)
    → (send_all sending messages).1 ≡ none
    → (send_all sending messages).0 ≡ messages
unfolding send_all
send_all-none taken [] h = refl
send_all-none taken (m ∷ messages) h = ap (◌∷◌ m) (send_all-none taken messages h)
send_all-none (hangs_up n status) [] h = refl
send_all-none (hangs_up zero status) (m ∷ messages) h = absurd cc
send_all-none (hangs_up (suc n) status) (m ∷ messages) h =
    ap (◌∷◌ m) (send_all-none (hangs_up n status) messages h)

module _ (format_time : ℕ → Bytes) (d : Deployment) where
  -- On a table that keeps its constraints, a call of `ListCustomers` that ends with the status OK has
  -- sent every customer of the first page, in the order of their ids: a client that sees OK has
  -- not been given a part of the page.
  pub list_customers_complete :
      (ctx : Context) (limit : ℤ) (sending : Sending) (w : World)
      → Inv w.table
      → (list_customers format_time d.map_lower (service d) ctx limit sending w).0.1 ≡ none
      → (list_customers format_time d.map_lower (service d) ctx limit sending w).0.0
        ≡ map (to_proto format_time d.map_lower (service d)) (take (page_size limit) w.table.rows)
  unfolding list_customers stream_result
  list_customers_complete ctx limit sending w v h =
      elim (Result-cases (Service.list d.map_lower (service d) ctx limit w).0) [
        | inr (e, bad) ↦ absurd (cc (rw bad at h))
        | inl (out, good) ↦ rw good (
            send_all-none sending (map (to_proto format_time d.map_lower (service d)) out)
              (rw good at h)
            ∙ ap (map (to_proto format_time d.map_lower (service d)))
                (list-page d ctx limit w out v good).0)
      ]
