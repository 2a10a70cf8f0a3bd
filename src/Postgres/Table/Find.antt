-- ===== src/Postgres/Table/Find.antt =====
-- What a lookup by id sees after each statement.
use crm_beginner.Base.{◌≡◌, refl, none, some, List, [], ◌∷◌, ◌++◌, if◌then◌else◌, arith}
use mathlib.Core.Option
use crm_beginner.Base.Int.{ℤ, eq_ℤ, eq_ℤ_iff}
use crm_beginner.Domain.{Customer}
use crm_beginner.Postgres.Table.{find, change, remove, count_id}

-- The row found has the id that was looked up.
pub find-id : (id : ℤ) (rows : List Customer) (c : Customer) → find id rows ≡ some c → c.id ≡ id
unfolding find
find-id id [] c h = cc
find-id id (r ∷ rows) c h = ground (arith, eq_ℤ_iff r.id id, find-id id rows c)

-- A row with a new id behind the others.
pub find-append :
    (j : ℤ) (rows : List Customer) (r : Customer)
    → find r.id rows ≡ none
    → find j (rows ++ r ∷ []) ≡ (if eq_ℤ r.id j then some r else find j rows)
unfolding find
find-append j [] r h = refl
find-append j (q ∷ rows) r h =
    ground (arith, eq_ℤ_iff q.id r.id, eq_ℤ_iff q.id j, eq_ℤ_iff r.id j, find-append j rows r)

pub find-change :
    (id j : ℤ) (f : Customer → Customer)
    → ((r : Customer) → (f r).id ≡ r.id)
    → (rows : List Customer)
    → find j (change id f rows) ≡ (if eq_ℤ id j then Option.map f (find j rows) else find j rows)
unfolding find change
find-change id j f keep [] = ground arith
find-change id j f keep (r ∷ rows) =
    ground (
      arith,
      keep r,
      eq_ℤ_iff r.id id,
      eq_ℤ_iff r.id j,
      eq_ℤ_iff id j,
      find-change id j f keep rows,
    )

pub find-remove :
    (id j : ℤ) (rows : List Customer)
    → find j (remove id rows) ≡ (if eq_ℤ id j then none else find j rows)
unfolding find remove
find-remove id j [] = ground arith
find-remove id j (r ∷ rows) =
    ground (arith, eq_ℤ_iff r.id id, eq_ℤ_iff r.id j, eq_ℤ_iff id j, find-remove id j rows)

pub count_id-find : (id : ℤ) (rows : List Customer) → (count_id id rows ≡ 0) → find id rows ≡ none
unfolding find count_id
count_id-find id [] h = refl
count_id-find id (r ∷ rows) h = ground (arith, count_id-find id rows)

pub find-count_id : (id : ℤ) (rows : List Customer) → find id rows ≡ none → count_id id rows ≡ 0
unfolding find count_id
find-count_id id [] h = refl
find-count_id id (r ∷ rows) h = ground (arith, find-count_id id rows)
