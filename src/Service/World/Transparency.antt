-- ===== src/Service/World/Transparency.antt =====
-- About internal/service/customer.go with a cache and without one.
use crm_beginner.Base.Int.{ℤ}
use crm_beginner.Base.{
  ◌≡◌, refl, sym, ap, subst, ◌∙◌, inl, inr, none, List, [], ◌∷◌, Result, ok, err, All, arith,
  Option-cases, Result-cases,
}
use mathlib.Core.Path.{ap₂}
use crm_beginner.Domain.{Customer, Error}
use crm_beginner.Postgres.Customers
use crm_beginner.Postgres.Customers.Invariant.{get_by_id-same}
use crm_beginner.Postgres.Customers.Lookup.{get_by_id_up}
use crm_beginner.Postgres.Table.Invariant.{empty-Inv}
use crm_beginner.Redis
use crm_beginner.Redis.{Store}
use crm_beginner.Redis.Stored.{get-held}
use crm_beginner.Remote.{up}
use crm_beginner.Service
use crm_beginner.Service.{draft}
use crm_beginner.Text.{Bytes}
use crm_beginner.Service.World.Coherence.{Reliable, Coherent, Sound, step-Sound}
use crm_beginner.Service.World.{
  World, new_world, Context, Deployment, Call, creates, gets, updates, lists, deletes, Reply,
  customer, done, step, run, service,
}

-- The deployment with no Redis.
abbrev pub bare : Deployment → Deployment
bare d = record d { handle = none }

-- A read of the database is answered.
abbrev pub Answered : Context → Call → Type 0
Answered ctx (gets id) = ctx.sql.link ≡ up
Answered ctx _ = Unit

-- The same reply and the same table.
abbrev pub SameOutcome : Reply × World → Reply × World → Type 0
SameOutcome a b = (a.0 ≡ b.0) × (a.1.table ≡ b.1.table)

bare-Sound :
    (d : Deployment) (w : World) (store : Store)
    → Sound d w
    → Sound (bare d) (record w { store = store })
bare-Sound d w store v = record { inv = v.inv; coherent = λ id c held. cc }

pub new_world-Coherent : (d : Deployment) → Coherent d new_world
new_world-Coherent d id c held = elim (Option-cases d.handle) [
  | inl e ↦ absurd (ground (arith, e))
  | inr (client, e) ↦ absurd (ground (arith, e))
]

module _ (d : Deployment) where
  -- In a sound state and with a database that answers, `GetByID` of the service returns what the
  -- repository returns, whatever Redis does, and leaves the table as it was.
  pub get_by_id-exact :
      (ctx : Context) (id : ℤ) (w : World)
      → ctx.sql.link ≡ up
      → Sound d w
      → ((Service.get_by_id d.map_lower (service d) ctx id w).0
          ≡ (Customers.get_by_id ctx.sql id w.table).0)
        × ((Service.get_by_id d.map_lower (service d) ctx id w).1.table ≡ w.table)
  unfolding Service.get_by_id
  get_by_id-exact ctx id w l v =
      elim (Option-cases (Redis.get d.codec d.handle ctx.redis id w.store)) [
        | inr (c, e) ↦
            let found = v.coherent id c (get-held d.codec d.handle ctx.redis id w.store c e) in
            rw (e, Service.get_by_id) (sym (get_by_id_up ctx.sql id w.table l ∙ rw found), refl)
        | inl e ↦
            rw (e, Service.get_by_id)
              (elim (Result-cases (Customers.get_by_id ctx.sql id w.table).0) [
                | inl (c, r) ↦ rw (r, Service.get_by_id) (refl, get_by_id-same ctx.sql id w.table)
                | inr (f, r) ↦ rw (r, Service.get_by_id) (refl, get_by_id-same ctx.sql id w.table)
              ])
      ]

  pub invalidate_row-outcome :
      (ctx : Context) (r : Result Error Customer) (w : World)
      → ((Service.invalidate_row d.map_lower (service d) ctx (r, w)).0 ≡ r)
        × ((Service.invalidate_row d.map_lower (service d) ctx (r, w)).1.table ≡ w.table)
  unfolding Service.invalidate_row
  invalidate_row-outcome ctx (ok c) w = (refl, refl)
  invalidate_row-outcome ctx (err e) w = (refl, refl)

  pub invalidate_id-outcome :
      (ctx : Context) (id : ℤ) (r : Result Error (Unit {0})) (w : World)
      → ((Service.invalidate_id d.map_lower (service d) ctx id (r, w)).0 ≡ r)
        × ((Service.invalidate_id d.map_lower (service d) ctx id (r, w)).1.table ≡ w.table)
  unfolding Service.invalidate_id
  invalidate_id-outcome ctx id (ok u) w = (refl, refl)
  invalidate_id-outcome ctx id (err e) w = (refl, refl)

module _ (d : Deployment) where
  gets-same :
      (ctx : Context) (id : ℤ) (w : World) (store : Store)
      → ctx.sql.link ≡ up
      → Sound d w
      → SameOutcome
          (step d ctx (gets id) w)
          (step (bare d) ctx (gets id) (record w { store = store }))
  unfolding step
  gets-same ctx id w store l v =
      let one = get_by_id-exact d ctx id w l v in
      let two =
        get_by_id-exact (bare d) ctx id (record w { store = store }) l (bare-Sound d w store v) in
      (ap customer (one.0 ∙ sym two.0), one.1 ∙ sym two.1)

  updates-same :
      (ctx : Context) (id : ℤ) (name email : Bytes) (w : World) (store : Store)
      → SameOutcome
          (step d ctx (updates id name email) w)
          (step (bare d) ctx (updates id name email) (record w { store = store }))
  unfolding step Service.update
  updates-same ctx id name email w store =
      elim (Result-cases (Service.check d.map_lower name email)) [
        | inr (f, e) ↦ rw (e, Service.update) (refl, refl)
        | inl (address, e) ↦
            let after = Customers.update ctx.sql (draft id name address.value) w.table in
            let one = invalidate_row-outcome d ctx after.0 (record w { table = after.1 }) in
            let two =
              invalidate_row-outcome (bare d) ctx after.0
                (record { table = after.1; store = store }) in
            rw (e, Service.update) (ap customer (one.0 ∙ sym two.0), one.1 ∙ sym two.1)
      ]

  creates-same :
      (ctx : Context) (name email : Bytes) (w : World) (store : Store)
      → SameOutcome
          (step d ctx (creates name email) w)
          (step (bare d) ctx (creates name email) (record w { store = store }))
  unfolding step Service.create
  creates-same ctx name email w store = elim (Result-cases (Service.check d.map_lower name email)) [
    | inr (f, e) ↦ rw (e, Service.create) (refl, refl)
    | inl (address, e) ↦ rw (e, Service.create) (refl, refl)
  ]

  -- Each call gets the same reply with the cache as without, and leaves the same table.
  pub step-same :
      (ctx : Context) (call : Call) (w : World) (store : Store)
      → Answered ctx call
      → Sound d w
      → SameOutcome (step d ctx call w) (step (bare d) ctx call (record w { store = store }))
  unfolding step
  step-same ctx (creates name email) w store l v = creates-same ctx name email w store
  step-same ctx (gets id) w store l v = gets-same ctx id w store l v
  step-same ctx (updates id name email) w store l v = updates-same ctx id name email w store
  step-same ctx (lists limit) w store l v = unfold Service.list in (refl, refl)
  step-same ctx (deletes id) w store l v =
      let after = Customers.delete ctx.sql id w.table in
      let one = invalidate_id-outcome d ctx id after.0 (record w { table = after.1 }) in
      let two =
        invalidate_id-outcome (bare d) ctx id after.0 (record { table = after.1; store = store }) in
      unfold Service.delete in (ap done (one.0 ∙ sym two.0), one.1 ∙ sym two.1)

  abbrev pub GoodCall : Context × Call → Type 0
  GoodCall (ctx, call) = Reliable ctx call × Answered ctx call

  run_from-same :
      (calls : List (Context × Call)) (w w' : World)
      → w.table ≡ w'.table
      → All GoodCall calls
      → Sound d w
      → ((run d calls w).0 ≡ (run (bare d) calls w').0)
        × ((run d calls w).1.table ≡ (run (bare d) calls w').1.table)
  unfolding run
  run_from-same [] w w' e g v = (refl, e)
  run_from-same ((ctx, call) ∷ calls) w w' e ((reliable, answered), g) v =
      let first =
        subst (λ x. SameOutcome (step d ctx call w) (step (bare d) ctx call x))
          (λ i. record { table = e i; store = w'.store })
          (step-same ctx call w w'.store answered v) in
      let rest =
        run_from-same calls (step d ctx call w).1 (step (bare d) ctx call w').1 first.1 g
          (step-Sound d ctx call w reliable v) in
      (ap₂ (◌∷◌) first.0 rest.0, rest.1)

  -- A history of calls from the empty database and cache gets the same replies and leaves the same
  -- table with the cache as without it, if the database answers every lookup by id, and no update
  -- or delete loses its reply from the database or fails to invalidate.
  pub run-same :
      (calls : List (Context × Call))
      → All GoodCall calls
      → ((run d calls new_world).0 ≡ (run (bare d) calls new_world).0)
        × ((run d calls new_world).1.table ≡ (run (bare d) calls new_world).1.table)
  run-same calls g =
      run_from-same calls new_world new_world refl g
        (record { inv = empty-Inv; coherent = new_world-Coherent d })
