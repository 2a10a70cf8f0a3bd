-- ===== src/Postgres/Customers/Lookup.antt =====
-- About internal/adapter/postgres/customer_repository.go: each method on a table that it reaches.
use crm_beginner.Base.Int.{ℤ, pos, eq_ℤ, eq_ℤ_iff}
use crm_beginner.Base.{
  ◌≡◌, ◌⊎◌, inl, inr, refl, ap, ◌∙◌, Bool, true, false, none, some, any, if◌then◌else◌, ok, err,
  arith, Bool-cases, Option-cases,
}
use crm_beginner.Domain.{Customer, sentinel, not_found, duplicate_email}
use crm_beginner.Postgres.Customers.{Context, create, get_by_id, update, delete}
use crm_beginner.Postgres.Table.Find.{
  find-append, find-change, find-remove, find-count_id, count_id-find,
}
use crm_beginner.Remote.{up}
use crm_beginner.Postgres.Table.Invariant.{Inv, find-next_id}
use crm_beginner.Postgres.Table.{
  Table, find, taken_beside, new_row, changed, insert_customer, select_customer, update_customer,
  delete_customer,
}
use crm_beginner.Text.{Bytes, equal}

-- Some row holds the email.
abbrev pub taken : Bytes → Table → Bool
taken email t = any (λ q. equal q.email email) t.rows

pub get_by_id_up :
    (ctx : Context) (id : ℤ) (t : Table)
    → ctx.link ≡ up
    → (get_by_id ctx id t).0
      ≡ (elim (find id t.rows) [ none ↦ err (sentinel not_found) | some r ↦ ok r ])
unfolding get_by_id select_customer
get_by_id_up ctx id t h = ground arith

-- What `Create` returns and leaves on a table that it reaches.
abbrev pub CreateOutcome : Context → Customer → Table → Type 0
CreateOutcome ctx c t =
    ((taken c.email t ≡ true)
      × ((create ctx c t).0 ≡ err (sentinel duplicate_email))
      × ((create ctx c t).1.rows ≡ t.rows))
    ⊎ ((taken c.email t ≡ false)
        × ((create ctx c t).0 ≡ ok (new_row ctx.now t.next_id c.name c.email))
        × (find (pos t.next_id) t.rows ≡ none)
        × ((j : ℤ)
            → find j (create ctx c t).1.rows ≡ (
                if eq_ℤ (pos t.next_id) j
                then some (new_row ctx.now t.next_id c.name c.email)
                else find j t.rows)))

-- When the database answers and the table keeps its constraints, `Create` fails with
-- `ErrDuplicateEmail`, the rows unchanged, if a row holds the email. If none does, it returns a row
-- with the next id of the sequence, which no row had; that id finds the row from then on, and every
-- other id finds what it found before.
pub create-exact :
    (ctx : Context) (c : Customer) (t : Table) → ctx.link ≡ up → Inv t → CreateOutcome ctx c t
unfolding create insert_customer
create-exact ctx c t h v = elim (Bool-cases (taken c.email t)) [
  | inl e ↦ inl (e, ground arith, ground arith)
  | inr e ↦
      let fresh = find-next_id t v in
      inr (
        e,
        ground arith,
        fresh,
        λ j.
            ap (find j) (ground arith)
            ∙ find-append j t.rows (new_row ctx.now t.next_id c.name c.email) fresh,
      )
]

-- What `Update` returns and leaves on a table that it reaches.
abbrev pub UpdateOutcome : Context → Customer → Table → Type 0
UpdateOutcome ctx c t =
    ((find c.id t.rows ≡ none)
      × ((update ctx c t).0 ≡ err (sentinel not_found))
      × ((update ctx c t).1 ≡ t))
    ⊎ ((r : Customer) × (find c.id t.rows ≡ some r)
        × (((taken_beside c.id c.email t.rows ≡ true)
              × ((update ctx c t).0 ≡ err (sentinel duplicate_email))
              × ((update ctx c t).1 ≡ t))
            ⊎ ((taken_beside c.id c.email t.rows ≡ false)
                × ((update ctx c t).0 ≡ ok (changed ctx.now c.name c.email r))
                × ((j : ℤ)
                    → find j (update ctx c t).1.rows ≡ (
                        if eq_ℤ c.id j
                        then some (changed ctx.now c.name c.email r)
                        else find j t.rows)))))

-- When the database answers, `Update` fails with `ErrNotFound` if no row has the id, and with
-- `ErrDuplicateEmail` if another row holds the new email; the table is unchanged in both cases.
-- Otherwise it returns the row with the new name, email and time, which its id finds from then on,
-- and every other id finds what it found before.
pub update-exact :
    (ctx : Context) (c : Customer) (t : Table) → ctx.link ≡ up → UpdateOutcome ctx c t
unfolding update update_customer
update-exact ctx c t h = elim (Option-cases (find c.id t.rows)) [
  | inl e ↦ inl (e, ground arith, ground arith)
  | inr (r, e) ↦ inr (
    r,
    e,
    elim (Bool-cases (taken_beside c.id c.email t.rows)) [
      | inl f ↦ inl (f, ground arith, ground arith)
      | inr f ↦ inr (
        f,
        ground arith,
        λ j.
            ap (find j) (ground arith)
            ∙ find-change c.id j (changed ctx.now c.name c.email) (λ q. refl) t.rows
            ∙ ground (arith, eq_ℤ_iff c.id j),
      )
    ],
  )
]

-- When the database answers, `Delete` succeeds if a row has the id and fails with `ErrNotFound` if
-- none has; from then on the id finds nothing, and every other id finds what it found before.
pub delete-exact :
    (ctx : Context) (id : ℤ) (t : Table)
    → ctx.link ≡ up
    → ((delete ctx id t).0
        ≡ (elim (find id t.rows) [ none ↦ err (sentinel not_found) | some r ↦ ok tt ]))
      × ((j : ℤ) → find j (delete ctx id t).1.rows ≡ (if eq_ℤ id j then none else find j t.rows))
unfolding delete delete_customer
delete-exact ctx id t h = (
  ground (arith, count_id-find id t.rows, find-count_id id t.rows),
  λ j. ap (find j) (ground arith) ∙ find-remove id j t.rows,
)
