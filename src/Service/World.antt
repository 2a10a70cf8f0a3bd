-- ===== src/Service/World.antt =====
-- The service over the Postgres repository and the Redis cache, as internal/app/app.go wires it.
pub mod Coherence
pub mod Transparency
pub mod Paging
pub mod Calls
pub mod Interleaved
use crm_beginner.Base.Int.{ℤ}
use crm_beginner.Base.{List, [], ◌∷◌, Result}
use crm_beginner.Domain.Ports.{CustomerRepository, CustomerCache}
use crm_beginner.Domain.{Customer, Error}
use crm_beginner.Postgres.Customers
use crm_beginner.Postgres.Table.{Table, empty}
use crm_beginner.Redis
use crm_beginner.Redis.{Codec, Handle, Store, no_items}
use crm_beginner.Service.{CustomerService, create, get_by_id, update, list, delete}
use crm_beginner.Text.{Bytes}

pub record World : Type 0 where
  pub table : Table
  pub store : Store

abbrev pub new_world : World
new_world = record { table = empty; store = no_items }

-- What the calls under one context meet at the two servers.
pub record Context : Type 0 where
  pub sql : Customers.Context
  pub redis : Redis.Context

abbrev on_table : {A : Type 0} → (Table → A × Table) → World → A × World
on_table run w = let r = run w.table in (r.0, record w { table = r.1 })

abbrev pub repository : CustomerRepository Context World
repository = record {
  create = λ ctx c. on_table (Customers.create ctx.sql c);
  get_by_id = λ ctx id. on_table (Customers.get_by_id ctx.sql id);
  update = λ ctx c. on_table (Customers.update ctx.sql c);
  delete = λ ctx id. on_table (Customers.delete ctx.sql id);
  list = λ ctx limit. on_table (Customers.list ctx.sql limit);
}

-- The parameters of a deployment: Unicode's lower case, JSON, and the cache's handle, nil or not.
pub record Deployment : Type 0 where
  pub map_lower : Bytes → Bytes
  pub codec : Codec
  pub handle : Handle

abbrev pub cache : Deployment → CustomerCache Context World
cache d = record {
  get = λ ctx id w. Redis.get d.codec d.handle ctx.redis id w.store;
  set = λ ctx c w. record w { store = Redis.set d.codec d.handle ctx.redis c w.store };
  invalidate = λ ctx id w. record w { store = Redis.invalidate d.handle ctx.redis id w.store };
}

abbrev pub service : Deployment → CustomerService Context World
service d = record { repo = repository; cache = cache d }

-- One call of the service.
pub data Call : Type 0 where
  creates : Bytes → Bytes → Call
  gets : ℤ → Call
  updates : ℤ → Bytes → Bytes → Call
  lists : ℤ → Call
  deletes : ℤ → Call

pub data Reply : Type 0 where
  customer : Result Error Customer → Reply
  customers : Result Error (List Customer) → Reply
  done : Result Error (Unit {0}) → Reply

unfoldable pub step : Deployment → Context → Call → World → Reply × World
step d ctx (creates name email) w =
    let r = create d.map_lower (service d) ctx name email w in (customer r.0, r.1)
step d ctx (gets id) w = let r = get_by_id d.map_lower (service d) ctx id w in (customer r.0, r.1)
step d ctx (updates id name email) w =
    let r = update d.map_lower (service d) ctx id name email w in (customer r.0, r.1)
step d ctx (lists limit) w =
    let r = list d.map_lower (service d) ctx limit w in (customers r.0, r.1)
step d ctx (deletes id) w = let r = delete d.map_lower (service d) ctx id w in (done r.0, r.1)

-- A history of calls, each under its own context.
unfoldable pub run : Deployment → List (Context × Call) → World → List Reply × World
unfolding step
run d [] w = ([], w)
run d ((ctx, call) ∷ calls) w =
    let first = step d ctx call w in let rest = run d calls first.1 in (first.0 ∷ rest.0, rest.1)
