-- ===== src/Service/World/Interleaved/Staleness.antt =====
-- About internal/service/customer.go under concurrent calls: what the cache may hold.
use crm_beginner.Base.Int.{ℤ, pos, eq_ℤ, eq_ℤ_iff}
use crm_beginner.Base.{
  ℕ, zero, suc, ◌≡◌, ◌⊎◌, refl, sym, ap, ◌∙◌, subst, inl, inr, Option, none, some, List, [], ◌∷◌,
  Result, ok, err, All, arith, Option-cases, Result-cases, Bool-cases,
}
use mathlib.Core.Option
use mathlib.Core.Option.{some-injective}
use crm_beginner.Domain.{Customer, Error}
use crm_beginner.Postgres.Customers
use crm_beginner.Postgres.Customers.Frame.{get_by_id-ok}
use crm_beginner.Postgres.Table.Find.{find-id}
use crm_beginner.Postgres.Table.{Table, find}
use crm_beginner.Redis
use crm_beginner.Redis.Stored.{held, set-held, invalidate-held}
use crm_beginner.Remote.{Link, up, refused, lost, Applied}
use crm_beginner.Service.{check, draft}
use crm_beginner.Service.World.Coherence.{Sound}
use crm_beginner.Service.World.Interleaved.{
  Flight, missed, holds, wrote, Shop, open_shop, Move, looks, creates, updates, deletes, goes_on,
  pick, stated, stored, then_holds, then_wrote, go_on, step, run,
}
use crm_beginner.Service.World.{World, Context, Deployment}

-- The customer has been the row of the id.
abbrev pub WasRow : List (List Customer) → ℤ → Customer → Type 0
WasRow [] id c = ⊥
WasRow (rows ∷ past) id c = (find id rows ≡ some c) ⊎ WasRow past id c

abbrev FlightWas : List (List Customer) → Flight → Type 0
FlightWas past (holds c) = WasRow past c.id c
FlightWas past _ = Unit

FlightWas-later :
    (rows : List Customer) (past : List (List Customer)) (flights : List Flight)
    → All (FlightWas past) flights
    → All (FlightWas (rows ∷ past)) flights
FlightWas-later rows past [] a = tt
FlightWas-later rows past (missed id ∷ flights) (h, a) = (tt, FlightWas-later rows past flights a)
FlightWas-later rows past (holds c ∷ flights) (h, a) = (inr h, FlightWas-later rows past flights a)
FlightWas-later rows past (wrote id ∷ flights) (h, a) = (tt, FlightWas-later rows past flights a)

abbrev PicksWas : List (List Customer) → Option (Flight × List Flight) → Type 0
PicksWas past none = Unit
PicksWas past (some (f, flights)) = FlightWas past f × All (FlightWas past) flights

pick-PicksWas :
    (past : List (List Customer)) (n : ℕ) (flights : List Flight)
    → All (FlightWas past) flights
    → PicksWas past (pick n flights)
unfolding pick
pick-PicksWas past n [] a = tt
pick-PicksWas past zero (f ∷ flights) a = a
pick-PicksWas past (suc n) (f ∷ flights) (h, a) =
    under (pick n flights) (pick-PicksWas past n flights a)
  where
    under :
        (o : Option (Flight × List Flight))
        → PicksWas past o
        → PicksWas past (Option.map (λ r. (r.0, f ∷ r.1)) o)
    under none w = tt
    under (some (g, rest)) (k, w) = (k, (h, w))

module _ (d : Deployment) where
  record Kept (s : Shop) : Type 0 where
    now : (j : ℤ) (c : Customer) → find j s.world.table.rows ≡ some c → WasRow s.past j c
    cached :
        (j : ℤ) (c : Customer) → held d.codec d.handle s.world.store j ≡ some c → WasRow s.past j c
    flying : All (FlightWas s.past) s.flights

  stated-Kept :
      (t : Table) (flights : List Flight) (s : Shop)
      → All (FlightWas (t.rows ∷ s.past)) flights
      → Kept s
      → Kept (stated t flights s)
  unfolding stated
  stated-Kept t flights s a v = record {
    now = λ j c h. inl h;
    cached = λ j c h. inr (v.cached j c h);
    flying = a;
  }

  then_wrote-Was :
      {A : Type 0} (past : List (List Customer)) (r : Result Error A) (id : A → ℤ)
      (flights : List Flight)
      → All (FlightWas past) flights
      → All (FlightWas past) (then_wrote r id flights)
  unfolding then_wrote
  then_wrote-Was past (ok x) id flights a = (tt, a)
  then_wrote-Was past (err e) id flights a = a

  then_holds-Was :
      (past : List (List Customer)) (r : Result Error Customer) (flights : List Flight)
      → ((c : Customer) → r ≡ ok c → WasRow past c.id c)
      → All (FlightWas past) flights
      → All (FlightWas past) (then_holds r flights)
  unfolding then_holds
  then_holds-Was past (ok c) flights k a = (k c refl, a)
  then_holds-Was past (err e) flights k a = a

  Applied-cases : (l : Link) → Applied l ⊎ ((e : Error) × (l ≡ refused e))
  Applied-cases up = inl tt
  Applied-cases (refused e) = inr (e, refl)
  Applied-cases (lost e) = inl tt

  refused-same :
      (handle : Redis.Handle) (ctx : Redis.Context) (id : ℤ) (store : Redis.Store) (e : Error)
      → ctx.del_link ≡ refused e
      → Redis.invalidate handle ctx id store ≡ store
  unfolding Redis.invalidate
  refused-same none ctx id store e h = refl
  refused-same (some client) ctx id store e h = rw h refl

  -- An invalidation brings nothing in.
  invalidate-older :
      (ctx : Redis.Context) (id : ℤ) (store : Redis.Store) (j : ℤ) (c : Customer)
      → held d.codec d.handle (Redis.invalidate d.handle ctx id store) j ≡ some c
      → held d.codec d.handle store j ≡ some c
  invalidate-older ctx id store j c h = elim (Applied-cases ctx.del_link) [
    | inr (e, r) ↦
        ap (λ s. held d.codec d.handle s j) (sym (refused-same d.handle ctx id store e r)) ∙ h
    | inl a ↦
        let gone = invalidate-held d.codec d.handle ctx id store j a in
        elim (Bool-cases (eq_ℤ id j)) [ inl is ↦ absurd (ground arith) | inr isnt ↦ ground arith ]
  ]

  go_on-Kept :
      (ctx : Context) (f : Flight) (flights : List Flight) (s : Shop)
      → FlightWas s.past f
      → All (FlightWas s.past) flights
      → Kept s
      → Kept (go_on d ctx f flights s)
  unfolding go_on stored
  go_on-Kept ctx (missed id) flights s k a v =
      let r = Customers.get_by_id ctx.sql id s.world.table in
      stated-Kept r.1 (then_holds r.0 flights) s
        (then_holds-Was (r.1.rows ∷ s.past) r.0 flights
          (λ c h.
            let found = get_by_id-ok ctx.sql id s.world.table c h in
            inr (
              subst (λ i. WasRow s.past i c) (sym (find-id id s.world.table.rows c found))
                (v.now id c found)))
          (FlightWas-later r.1.rows s.past flights a))
        v
  go_on-Kept ctx (holds c) flights s k a v = record {
    now = v.now;
    cached = λ j x h. elim (set-held d.codec d.handle ctx.redis c s.world.store j) [
      | inl same ↦ v.cached j x (sym same ∙ h)
      | inr set ↦ elim (Bool-cases (eq_ℤ c.id j)) [
        | inr isnt ↦ v.cached j x (ground arith)
        | inl is ↦
            let id : c.id ≡ j = (eq_ℤ_iff c.id j).0 is in
            let same : c ≡ x = some-injective _ _ (ground arith) in
            subst (λ y. WasRow s.past j y) same (subst (λ i. WasRow s.past i c) id k)
      ]
    ];
    flying = a;
  }
  go_on-Kept ctx (wrote id) flights s k a v = record {
    now = v.now;
    cached = λ j c h. v.cached j c (invalidate-older ctx.redis id s.world.store j c h);
    flying = a;
  }

  abbrev KeptIf : Option Shop → Type 0
  KeptIf none = Unit
  KeptIf (some s) = Kept s

  pick-KeptIf :
      (ctx : Context) (s : Shop) (o : Option (Flight × List Flight))
      → PicksWas s.past o
      → Kept s
      → KeptIf (elim o [ none ↦ none | some (f, flights) ↦ some (go_on d ctx f flights s) ])
  pick-KeptIf ctx s none w v = tt
  pick-KeptIf ctx s (some (f, flights)) (k, a) v = go_on-Kept ctx f flights s k a v

  step-KeptIf : (m : Move) (s : Shop) → Kept s → KeptIf (step d m s)
  unfolding step
  step-KeptIf (looks ctx id) s v =
      elim (Option-cases (Redis.get d.codec d.handle ctx.redis id s.world.store)) [
        | inl missing ↦
            rw (KeptIf, step, missing)
              (record { now = v.now; cached = v.cached; flying = (tt, v.flying) })
        | inr (c, hit) ↦ rw (KeptIf, step, hit) v
      ]
  step-KeptIf (creates ctx name raw) s v = elim (Result-cases (check d.map_lower name raw)) [
    | inr (e, bad) ↦ rw (KeptIf, step, bad) v
    | inl (email, good) ↦
        let r = Customers.create ctx.sql (draft (pos 0) name email.value) s.world.table in
        rw (KeptIf, step, good)
          (stated-Kept r.1 s.flights s (FlightWas-later r.1.rows s.past s.flights v.flying) v)
  ]
  step-KeptIf (updates ctx id name raw) s v = elim (Result-cases (check d.map_lower name raw)) [
    | inr (e, bad) ↦ rw (KeptIf, step, bad) v
    | inl (email, good) ↦
        let r = Customers.update ctx.sql (draft id name email.value) s.world.table in
        rw (KeptIf, step, good)
          (stated-Kept r.1 (then_wrote r.0 (λ c. c.id) s.flights) s
            (then_wrote-Was (r.1.rows ∷ s.past) r.0 (λ c. c.id) s.flights
              (FlightWas-later r.1.rows s.past s.flights v.flying))
            v)
  ]
  step-KeptIf (deletes ctx id) s v =
      let r = Customers.delete ctx.sql id s.world.table in
      stated-Kept r.1 (then_wrote r.0 (λ u. id) s.flights) s
        (then_wrote-Was (r.1.rows ∷ s.past) r.0 (λ u. id) s.flights
          (FlightWas-later r.1.rows s.past s.flights v.flying))
        v
  step-KeptIf (goes_on ctx n) s v =
      pick-KeptIf ctx s (pick n s.flights) (pick-PicksWas s.past n s.flights v.flying) v

  run-Kept : (moves : List Move) (s s' : Shop) → Kept s → run d moves s ≡ some s' → Kept s'
  unfolding run
  run-Kept [] s s' v h = subst Kept (some-injective _ _ h) v
  run-Kept (m ∷ moves) s s' v h = elim (Option-cases (step d m s)) [
    | inl n ↦ absurd (ground arith)
    | inr (s1, e) ↦ run-Kept moves s1 s' (subst KeptIf e (step-KeptIf m s v)) (ground arith)
  ]

  -- However the steps of concurrent calls are ordered, from a sound state with no call under way, and
  -- whatever the connections to both servers do: a customer that the cache holds for an id has been
  -- the row of that id, when the calls began or behind one of their statements.
  pub run-WasRow :
      (moves : List Move) (w : World) (s : Shop)
      → Sound d w
      → run d moves (open_shop w) ≡ some s
      → (id : ℤ) (c : Customer) → held d.codec d.handle s.world.store id ≡ some c
      → WasRow s.past id c
  unfolding open_shop
  run-WasRow moves w s v h =
      (run-Kept moves (open_shop w) s
        (record {
          now = λ j c found. inl found;
          cached = λ j c h. inl (v.coherent j c h);
          flying = tt;
        })
        h).cached
