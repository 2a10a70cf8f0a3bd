-- ===== src/Service/World/Interleaved.antt =====
-- internal/service/customer.go under concurrent calls: each of its methods in the steps that it takes
-- on the table and on the cache, and every order of the steps of several calls.
pub mod Staleness
use crm_beginner.Base.Int.{ℤ, pos}
use crm_beginner.Base.{ℕ, zero, suc, Option, none, some, List, [], ◌∷◌, Result, ok, err}
use mathlib.Core.Option
use crm_beginner.Domain.{Customer, Error}
use crm_beginner.Postgres.Customers
use crm_beginner.Postgres.Table.{Table}
use crm_beginner.Redis
use crm_beginner.Service.{check, draft}
use crm_beginner.Service.World.{World, Context, Deployment}
use crm_beginner.Text.{Bytes}

-- A call that has steps before it: a lookup that the cache did not answer, one that holds the row it
-- read, and a write that has taken effect and has not yet invalidated the id.
pub data Flight : Type 0 where
  missed : ℤ → Flight
  holds : Customer → Flight
  wrote : ℤ → Flight

-- `past` only records: the rows behind each statement, the last one first.
pub record Shop : Type 0 where
  pub world : World
  pub flights : List Flight
  pub past : List (List Customer)

unfoldable pub open_shop : World → Shop
open_shop w = record { world = w; flights = []; past = w.table.rows ∷ [] }

-- The first step of a call, or the next step of the call at a place.
pub data Move : Type 0 where
  looks : Context → ℤ → Move
  creates : Context → Bytes → Bytes → Move
  updates : Context → ℤ → Bytes → Bytes → Move
  deletes : Context → ℤ → Move
  goes_on : Context → ℕ → Move

pick : ℕ → List Flight → Option (Flight × List Flight)
pick n [] = none
pick zero (f ∷ flights) = some (f, flights)
pick (suc n) (f ∷ flights) = Option.map (λ r. (r.0, f ∷ r.1)) (pick n flights)

-- A statement leaves the table, and some calls behind it.
stated : Table → List Flight → Shop → Shop
stated t flights s = record {
  world = record (s.world) { table = t };
  flights = flights;
  past = t.rows ∷ s.past;
}

-- What a statement's reply leaves of the call.
then_holds : Result Error Customer → List Flight → List Flight
then_holds (ok c) flights = holds c ∷ flights
then_holds (err e) flights = flights

then_wrote : {A : Type 0} → Result Error A → (A → ℤ) → List Flight → List Flight
then_wrote (ok a) id flights = wrote (id a) ∷ flights
then_wrote (err e) id flights = flights

stored : Redis.Store → List Flight → Shop → Shop
stored store flights s = record s { world = record (s.world) { store = store }; flights = flights }

module _ (d : Deployment) where
  go_on : Context → Flight → List Flight → Shop → Shop
  unfolding stated stored then_holds
  go_on ctx (missed id) flights s =
      let r = Customers.get_by_id ctx.sql id s.world.table in stated r.1 (then_holds r.0 flights) s
  go_on ctx (holds c) flights s =
      stored (Redis.set d.codec d.handle ctx.redis c s.world.store) flights s
  go_on ctx (wrote id) flights s =
      stored (Redis.invalidate d.handle ctx.redis id s.world.store) flights s

  -- `none` is a step of a call that is not there.
  unfoldable pub step : Move → Shop → Option Shop
  unfolding pick stated then_wrote go_on
  step (looks ctx id) s = elim (Redis.get d.codec d.handle ctx.redis id s.world.store) [
    | some c ↦ some s
    | none ↦ some (record s { flights = missed id ∷ s.flights })
  ]
  step (creates ctx name raw) s = elim (check d.map_lower name raw) [
    | err e ↦ some s
    | ok email ↦
        let r = Customers.create ctx.sql (draft (pos 0) name email.value) s.world.table in
        some (stated r.1 s.flights s)
  ]
  step (updates ctx id name raw) s = elim (check d.map_lower name raw) [
    | err e ↦ some s
    | ok email ↦
        let r = Customers.update ctx.sql (draft id name email.value) s.world.table in
        some (stated r.1 (then_wrote r.0 (λ c. c.id) s.flights) s)
  ]
  step (deletes ctx id) s =
      let r = Customers.delete ctx.sql id s.world.table in
      some (stated r.1 (then_wrote r.0 (λ u. id) s.flights) s)
  step (goes_on ctx n) s = elim (pick n s.flights) [
    | none ↦ none
    | some (f, flights) ↦ some (go_on ctx f flights s)
  ]

  unfoldable pub run : List Move → Shop → Option Shop
  unfolding step
  run [] s = some s
  run (m ∷ moves) s = elim (step m s) [ none ↦ none | some s' ↦ run moves s' ]
