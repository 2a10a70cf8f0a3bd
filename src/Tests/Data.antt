-- ===== src/Tests/Data.antt =====
-- Concrete deployments, tables and files for the tests.
use crm_beginner.Base.Int.{ℤ, pos, negsuc}
use crm_beginner.Base.{
  ℕ, zero, suc, ◌≡◌, refl, sym, ap, ◌∙◌, Option, none, some, [], ◌∷◌, ◌++◌, length,
}
use mathlib.Core.Option
use mathlib.Core.Option.{some-injective}
use crm_beginner.Domain.{Customer, LogEntry}
use crm_beginner.LogAgent.Positions
use crm_beginner.LogAgent.Positions.{Saved}
use crm_beginner.Postgres.Customers
use crm_beginner.Redis
use crm_beginner.Remote.{up}
use crm_beginner.Service.World.{World, new_world, Context, Deployment, creates, step}
use crm_beginner.Text.{Bytes, bytes}

abbrev pub sign : ℤ → ℕ
sign (pos n) = 0
sign (negsuc n) = 1

abbrev pub size : ℤ → ℕ
size (pos n) = n
size (negsuc n) = n

abbrev pub signed : ℕ → ℕ → ℤ
signed zero n = pos n
signed (suc s) n = negsuc n

abbrev pub split_at : ℕ → Bytes → Bytes × Bytes
split_at zero s = ([], s)
split_at (suc n) [] = ([], [])
split_at (suc n) (c ∷ s) = let rest = split_at n s in (c ∷ rest.0, rest.1)

pub split_at-append : (s t : Bytes) → split_at (length s) (s ++ t) ≡ (s, t)
split_at-append [] t = refl
split_at-append (c ∷ s) t = rw (split_at-append s t) refl

-- A customer as a list of numbers, in place of JSON.
abbrev pub encode : Customer → Bytes
encode c = sign c.id ∷ size c.id ∷ c.created_at ∷ c.updated_at ∷ length c.name ∷ (c.name ++ c.email)

abbrev pub decode : Bytes → Option Customer
decode (s ∷ n ∷ created_at ∷ updated_at ∷ k ∷ text) = some (record {
  id = signed s n;
  name = (split_at k text).0;
  email = (split_at k text).1;
  created_at = created_at;
  updated_at = updated_at;
})
decode _ = none

signed-sign : (i : ℤ) → signed (sign i) (size i) ≡ i
signed-sign (pos n) = refl
signed-sign (negsuc n) = refl

pub decode-encode : (c : Customer) → decode (encode c) ≡ some c
decode-encode c = λ i. some (record {
  id = signed-sign c.id i;
  name = (split_at-append c.name c.email i).0;
  email = (split_at-append c.name c.email i).1;
  created_at = c.created_at;
  updated_at = c.updated_at;
})

abbrev pub codec : Redis.Codec
codec = record {
  marshal = λ c. some (encode c);
  unmarshal = decode;
  round_trip = λ c s e. ap decode (sym (some-injective _ _ e)) ∙ decode-encode c;
}

-- Redis with an hour to live, and no lower case beyond ASCII.
abbrev pub deployment : Deployment
deployment = record { map_lower = λ s. s; codec = codec; handle = some (record { ttl = 3600 }) }

abbrev pub at : ℕ → Context
at now = record {
  sql = record { now = now; link = up; stream = Customers.whole };
  redis = record { now = now; get_link = up; set_link = up; del_link = up };
}

abbrev pub ada : Bytes
ada = bytes "Ada"

abbrev pub ada_email : Bytes
ada_email = bytes " Ada@Example.com "

abbrev pub one_customer : World
one_customer = (step deployment (at 5) (creates ada ada_email) new_world).1

abbrev pub log_entry : LogEntry
log_entry = record {
  level = bytes "error";
  message = bytes "disk full";
  service = bytes "billing";
  occurred_at = 7;
  created_at = 0;
}

abbrev pub encode_saved : Saved → Bytes
encode_saved [] = []
encode_saved ((file, place) ∷ m) =
    length file ∷ (file ++ (place.inode ∷ place.offset ∷ encode_saved m))

abbrev pub cons_saved : Bytes × Bytes → (Bytes → Option Saved) → Option Saved
cons_saved (file, inode ∷ offset ∷ more) decode_more =
    Option.map (λ m. (file, record { inode = inode; offset = offset }) ∷ m) (decode_more more)
cons_saved _ decode_more = none

abbrev pub decode_saved : ℕ → Bytes → Option Saved
decode_saved zero s = some []
decode_saved (suc n) [] = none
decode_saved (suc n) (k ∷ s) = cons_saved (split_at k s) (decode_saved n)

pub decode_saved-encode_saved : (m : Saved) → decode_saved (length m) (encode_saved m) ≡ some m
decode_saved-encode_saved [] = refl
decode_saved-encode_saved ((file, place) ∷ m) =
    rw
      (
        split_at-append file (place.inode ∷ place.offset ∷ encode_saved m),
        decode_saved-encode_saved m,
      )
      refl

abbrev pub unmarshal_saved : Bytes → Option Saved
unmarshal_saved [] = none
unmarshal_saved (n ∷ s) = decode_saved n s

abbrev pub positions_codec : Positions.Codec
positions_codec = record {
  marshal = λ m. length m ∷ encode_saved m;
  unmarshal = unmarshal_saved;
  round_trip = decode_saved-encode_saved;
}
