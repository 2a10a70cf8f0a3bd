-- ===== src/Service/World/Coherence.antt =====
-- About the cache of internal/service/customer.go: what it may hold beside the table.
use crm_beginner.Base.Int.{ℤ, pos, eq_ℤ, eq_ℤ_iff}
use crm_beginner.Base.{
  ◌≡◌, inl, inr, sym, subst, ◌∙◌, false, some, Result, ok, arith, Bool-cases, Option-cases,
  Result-cases,
}
use crm_beginner.Domain.{Customer, Error}
use crm_beginner.Postgres.Customers
use crm_beginner.Postgres.Table.Find.{find-id}
use crm_beginner.Postgres.Table.Invariant.{Inv}
use crm_beginner.Postgres.Table.{Table, find}
use crm_beginner.Redis
use crm_beginner.Redis.Stored.{held, set-held, invalidate-held}
use crm_beginner.Remote.{Applied, NotLost}
use crm_beginner.Service
use crm_beginner.Service.{draft, clamp}
use crm_beginner.Postgres.Customers.Frame.{
  find-create, get_by_id-ok, update_frame, delete_frame, UpdateFrame, DeleteFrame,
}
use crm_beginner.Postgres.Customers.Invariant.{
  create-Inv, update-Inv, delete-Inv, get_by_id-same, list-same,
}
use crm_beginner.Text.{Bytes}
use crm_beginner.Service.World.{
  World, Context, Deployment, Call, creates, gets, updates, lists, deletes, step, service,
}

-- No write takes effect without the reply that leads to its invalidation, and that takes effect.
abbrev pub Reliable : Context → Call → Type 0
Reliable ctx (creates name email) = Unit
Reliable ctx (gets id) = Unit
Reliable ctx (updates id name email) = NotLost ctx.sql.link × Applied ctx.redis.del_link
Reliable ctx (lists limit) = Unit
Reliable ctx (deletes id) = NotLost ctx.sql.link × Applied ctx.redis.del_link

module _ (d : Deployment) where
  -- What the cache may return for an id is the row with that id.
  abbrev pub Coherent : World → Type 0
  Coherent w =
      (id : ℤ) (c : Customer)
      → held d.codec d.handle w.store id ≡ some c
      → find id w.table.rows ≡ some c

  pub record Sound (w : World) : Type 0 where
    pub inv : Inv w.table
    pub coherent : Coherent w

  -- Storing the row of an id keeps the cache coherent.
  set-Coherent :
      (ctx : Context) (c : Customer) (w : World)
      → find c.id w.table.rows ≡ some c
      → Coherent w
      → Coherent (record w { store = Redis.set d.codec d.handle ctx.redis c w.store })
  set-Coherent ctx c w found coherent id e held =
      elim (set-held d.codec d.handle ctx.redis c w.store id) [
        | inl same ↦ coherent id e (sym same ∙ held)
        | inr set ↦ elim (Bool-cases (eq_ℤ c.id id)) [
          | inl is ↦ ground (arith, eq_ℤ_iff c.id id)
          | inr isnt ↦ coherent id e (ground arith)
        ]
      ]

  -- Forgetting one id makes up for a change of its row.
  invalidate-Coherent :
      (ctx : Context) (i : ℤ) (w : World) (t : Table)
      → Applied ctx.redis.del_link
      → ((j : ℤ) → eq_ℤ i j ≡ false → find j t.rows ≡ find j w.table.rows)
      → Coherent w
      → Coherent (record { table = t; store = Redis.invalidate d.handle ctx.redis i w.store })
  invalidate-Coherent ctx i w t a others coherent id e held =
      let gone = invalidate-held d.codec d.handle ctx.redis i w.store id a in
      elim (Bool-cases (eq_ℤ i id)) [
        | inl is ↦ absurd (ground arith)
        | inr isnt ↦ others id isnt ∙ coherent id e (ground arith)
      ]

  -- A table with the same rows.
  table-Coherent :
      (w : World) (t : Table)
      → ((j : ℤ) (c : Customer) → find j w.table.rows ≡ some c → find j t.rows ≡ some c)
      → Coherent w
      → Coherent (record w { table = t })
  table-Coherent w t keeps coherent id c held = keeps id c (coherent id c held)

  get_by_id-Coherent :
      (ctx : Context) (id : ℤ) (w : World)
      → Coherent w
      → Coherent (Service.get_by_id d.map_lower (service d) ctx id w).1
  unfolding Service.get_by_id
  get_by_id-Coherent ctx id w coherent =
      elim (Option-cases (Redis.get d.codec d.handle ctx.redis id w.store)) [
        | inr (c, e) ↦ rw (e, Service.get_by_id) coherent
        | inl e ↦
            rw (e, Service.get_by_id)
              (elim (Result-cases read.0) [
                | inl (c, r) ↦ rw (r, Service.get_by_id) (set-Coherent ctx c w' (own c r) kept)
                | inr (f, r) ↦ rw (r, Service.get_by_id) kept
              ])
      ]
    where
      read : Result Error Customer × Table
      read = Customers.get_by_id ctx.sql id w.table

      w' : World
      w' = record w { table = read.1 }

      kept : Coherent w'
      kept = rw (get_by_id-same ctx.sql id w.table) coherent

      own : (c : Customer) → read.0 ≡ ok c → find c.id read.1.rows ≡ some c
      own c r =
          let found = get_by_id-ok ctx.sql id w.table c r in
          rw (get_by_id-same ctx.sql id w.table) (
            subst (λ i. find i w.table.rows ≡ some c) (sym (find-id id w.table.rows c found)) found)

  get_by_id-Inv :
      (ctx : Context) (id : ℤ) (w : World)
      → Inv w.table
      → Inv (Service.get_by_id d.map_lower (service d) ctx id w).1.table
  unfolding Service.get_by_id
  get_by_id-Inv ctx id w v = elim (Option-cases (Redis.get d.codec d.handle ctx.redis id w.store)) [
    | inr (c, e) ↦ rw (e, Service.get_by_id) v
    | inl e ↦
        let same = get_by_id-same ctx.sql id w.table in
        rw (e, Service.get_by_id)
          (elim (Result-cases (Customers.get_by_id ctx.sql id w.table).0) [
            | inl (c, r) ↦ rw (r, Service.get_by_id) (rw same v)
            | inr (f, r) ↦ rw (r, Service.get_by_id) (rw same v)
          ])
  ]

  create-Sound :
      (ctx : Context) (name raw_email : Bytes) (w : World)
      → Sound w
      → Sound (Service.create d.map_lower (service d) ctx name raw_email w).1
  unfolding Service.create
  create-Sound ctx name raw_email w v =
      elim (Result-cases (Service.check d.map_lower name raw_email)) [
        | inr (f, e) ↦ rw (e, Service.create) v
        | inl (email, e) ↦
            rw (e, Service.create)
              (record {
                inv = create-Inv ctx.sql (draft (pos 0) name email.value) w.table v.inv;
                coherent =
                    table-Coherent w
                      (Customers.create ctx.sql (draft (pos 0) name email.value) w.table).1
                      (λ j c.
                        find-create ctx.sql (draft (pos 0) name email.value) w.table j c v.inv)
                      v.coherent;
              })
      ]

  invalidate_row-Sound :
      (ctx : Context) (c : Customer) (w : World) (r : Result Error Customer) (t : Table)
      → Applied ctx.redis.del_link
      → UpdateFrame c w.table (r, t)
      → Inv t
      → Sound w
      → Sound (Service.invalidate_row d.map_lower (service d) ctx (r, record w { table = t })).1
  unfolding Service.invalidate_row
  invalidate_row-Sound ctx c w r t a (inl (out, e, same_id, others)) inv v = rw e (record {
    inv = inv;
    coherent =
        invalidate-Coherent ctx out.id w t a (λ j ne. others j (rw (sym same_id) ne)) v.coherent;
  })
  invalidate_row-Sound ctx c w r t a (inr (f, e, same)) inv v =
      rw e (record { inv = inv; coherent = table-Coherent w t (λ j x h. rw same h) v.coherent })

  update-Sound :
      (ctx : Context) (id : ℤ) (name raw_email : Bytes) (w : World)
      → NotLost ctx.sql.link
      → Applied ctx.redis.del_link
      → Sound w
      → Sound (Service.update d.map_lower (service d) ctx id name raw_email w).1
  unfolding Service.update
  update-Sound ctx id name raw_email w n a v =
      elim (Result-cases (Service.check d.map_lower name raw_email)) [
        | inr (f, e) ↦ rw (e, Service.update) v
        | inl (email, e) ↦
            let row = draft id name email.value in
            let after = Customers.update ctx.sql row w.table in
            rw (e, Service.update)
              (invalidate_row-Sound ctx row w after.0 after.1 a (update_frame ctx.sql row w.table n)
                (update-Inv ctx.sql row w.table v.inv) v)
      ]

  invalidate_id-Sound :
      (ctx : Context) (id : ℤ) (w : World) (r : Result Error (Unit {0})) (t : Table)
      → Applied ctx.redis.del_link
      → DeleteFrame id w.table (r, t)
      → Inv t
      → Sound w
      → Sound (Service.invalidate_id d.map_lower (service d) ctx id (r, record w { table = t })).1
  unfolding Service.invalidate_id
  invalidate_id-Sound ctx id w r t a (inl (e, others)) inv v =
      rw e (record { inv = inv; coherent = invalidate-Coherent ctx id w t a others v.coherent })
  invalidate_id-Sound ctx id w r t a (inr (f, e, same)) inv v =
      rw e (record { inv = inv; coherent = table-Coherent w t (λ j x h. same j ∙ h) v.coherent })

  -- Every call keeps a state sound: the ids and the emails of the table stay distinct, and what the
  -- cache holds for an id stays the row with that id. An update or a delete must not lose its reply
  -- from the database, and its invalidation must take effect; nothing is asked of other calls.
  pub step-Sound :
      (ctx : Context) (call : Call) (w : World)
      → Reliable ctx call
      → Sound w
      → Sound (step d ctx call w).1
  unfolding step
  step-Sound ctx (creates name email) w h v = create-Sound ctx name email w v
  step-Sound ctx (gets id) w h v = record {
    inv = get_by_id-Inv ctx id w v.inv;
    coherent = get_by_id-Coherent ctx id w v.coherent;
  }
  step-Sound ctx (updates id name email) w h v = update-Sound ctx id name email w h.0 h.1 v
  step-Sound ctx (lists limit) w h v =
      let same = list-same ctx.sql (clamp limit) w.table in
      unfold Service.list in record { inv = rw same v.inv; coherent = rw same v.coherent }
  step-Sound ctx (deletes id) w h v =
      let after = Customers.delete ctx.sql id w.table in
      unfold Service.delete in
      invalidate_id-Sound ctx id w after.0 after.1 h.1 (delete_frame ctx.sql id w.table h.0)
        (delete-Inv ctx.sql id w.table v.inv) v
