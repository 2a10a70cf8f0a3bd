-- ===== src/Redis.antt =====
-- internal/adapter/redis/customer_cache.go: the cache of customers, over a Redis server.
pub mod Stored
pub mod Connection
use crm_beginner.Base.Int.{ℤ}
use crm_beginner.Base.{
  ℕ, ◌+◌, ◌≡◌, Bool, true, false, Option, none, some, ◌++◌, ◌==◌, ltb, if◌then◌else◌, Result, ok,
  err,
}
use crm_beginner.Domain.Ports.{CustomerCache}
use crm_beginner.Domain.{Customer, Error, sentinel, redis_nil}
use crm_beginner.Remote.{Link, exec}
use crm_beginner.Text.Decimal.{decimal_int}
use crm_beginner.Text.{Bytes, bytes, equal}

-- `encoding/json` on customers: what can be marshalled is read back as it was.
pub record Codec : Type 0 where
  pub marshal : Customer → Option Bytes
  pub unmarshal : Bytes → Option Customer
  pub round_trip :
      (c : Customer) (data' : Bytes) → marshal c ≡ some data' → unmarshal data' ≡ some c

-- A value of the server, with the time at which it expires.
pub record Item : Type 0 where
  pub value : Bytes
  pub expires : Option ℕ

abbrev pub Store : Type 0
Store = Bytes → Option Item

abbrev pub no_items : Store
no_items key = none

abbrev is_live : ℕ → Item → Bool
is_live now item = elim item.expires [ none ↦ true | some t ↦ ltb now t ]

-- GET.
unfoldable pub run_get : ℕ → Bytes → Store → Result Error Bytes × Store
run_get now key store = elim (store key) [
  | none ↦ (err (sentinel redis_nil), store)
  | some item ↦ (if is_live now item then ok item.value else err (sentinel redis_nil), store)
]

-- SET with an expiration, where 0 means none.
unfoldable pub run_set : ℕ → Bytes → Bytes → ℕ → Store → Result Error (Unit {0}) × Store
run_set now key value ttl store =
    let expires = if ttl == 0 then none else some (now + ttl) in
    (
      ok tt,
      λ k. if equal k key then some (record { value = value; expires = expires }) else store k,
    )

-- DEL.
unfoldable pub run_del : Bytes → Store → Result Error (Unit {0}) × Store
run_del key store = (ok tt, λ k. if equal k key then none else store k)

pub record Client : Type 0 where
  pub ttl : ℕ

-- A `*CustomerCache`; `none` is the nil pointer.
abbrev pub Handle : Type 0
Handle = Option Client

-- What the calls under a context meet: the time of the server, and the connection at each command.
pub record Context : Type 0 where
  pub now : ℕ
  pub get_link : Link
  pub set_link : Link
  pub del_link : Link

unfoldable pub key : ℤ → Bytes
key id = bytes "customer:" ++ decimal_int id

-- `Invalidate`.
unfoldable pub invalidate : Handle → Context → ℤ → Store → Store
invalidate none ctx id store = store
invalidate (some client) ctx id store = (exec ctx.del_link (run_del (key id)) store).1

module _ (codec : Codec) where
  -- `Get`: a miss, a failure of Redis and an unreadable value are all `none`.
  unfoldable pub get : Handle → Context → ℤ → Store → Option Customer
  get none ctx id store = none
  get (some client) ctx id store = elim (exec ctx.get_link (run_get ctx.now (key id)) store).0 [
    | err e ↦ none
    | ok value ↦ codec.unmarshal value
  ]

  -- `Set`.
  unfoldable pub set : Handle → Context → Customer → Store → Store
  set none ctx c store = store
  set (some client) ctx c store = elim (codec.marshal c) [
    | none ↦ store
    | some value ↦ (exec ctx.set_link (run_set ctx.now (key c.id) value client.ttl) store).1
  ]

  unfoldable pub cache : Handle → CustomerCache Context Store
  unfolding get set invalidate
  cache handle = record { get = get handle; set = set handle; invalidate = invalidate handle }
