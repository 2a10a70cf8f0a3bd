-- ===== src/Postgres/Customers/Frame.antt =====
-- About internal/adapter/postgres/customer_repository.go: the rows that a method leaves alone.
use crm_beginner.Base.Int.{ℤ, eq_ℤ, eq_ℤ_iff}
use crm_beginner.Base.{
  ℕ, ◌≡◌, ◌⊎◌, inl, inr, refl, ◌∙◌, false, some, Result, ok, err, arith, Bool-cases, Option-cases,
}
use crm_beginner.Domain.{
  Customer, Error, sentinel, wrap, not_found, no_rows, duplicate_email, error_is,
}
use crm_beginner.Postgres.Customers.Lookup.{taken, update-exact, delete-exact}
use crm_beginner.Postgres.Customers.{
  Context, create, get_by_id, update, delete, update_result, is_unique_violation,
}
use crm_beginner.Postgres.Table.Find.{find-id, find-append}
use crm_beginner.Postgres.Table.Invariant.{Inv, find-next_id}
use crm_beginner.Postgres.Table.{Table, find, changed, new_row, insert_customer, select_customer}
use crm_beginner.Text.{Bytes, bytes}
use crm_beginner.Remote.{Link, up, refused, lost, exec, NotLost}

find-insert :
    (now : ℕ) (name email : Bytes) (t : Table) (j : ℤ) (c : Customer)
    → Inv t
    → find j t.rows ≡ some c
    → find j (insert_customer now name email t).1.rows ≡ some c
unfolding insert_customer
find-insert now name email t j c v h = elim (Bool-cases (taken email t)) [
  | inl e ↦ rw e h
  | inr e ↦
      let r = new_row now t.next_id name email in
      rw e (
        find-append j t.rows r (find-next_id t v) ∙ elim (Bool-cases (eq_ℤ r.id j)) [
          | inl same ↦ ground (arith, eq_ℤ_iff r.id j, find-next_id t v)
          | inr other ↦ rw other h
        ])
]

-- A row that was there is still there, as it was, after a create.
pub find-create :
    (ctx : Context) (x : Customer) (t : Table) (j : ℤ) (c : Customer)
    → Inv t
    → find j t.rows ≡ some c
    → find j (create ctx x t).1.rows ≡ some c
unfolding create
find-create ctx x t j c v h = go ctx.link
  where
    go :
        (link : Link)
        → find j (exec link (insert_customer ctx.now x.name x.email) t).1.rows ≡ some c
    go up = find-insert ctx.now x.name x.email t j c v h
    go (refused e) = h
    go (lost e) = find-insert ctx.now x.name x.email t j c v h

pub get_by_id-ok :
    (ctx : Context) (id : ℤ) (t : Table) (c : Customer)
    → (get_by_id ctx id t).0 ≡ ok c
    → find id t.rows ≡ some c
unfolding get_by_id select_customer
get_by_id-ok ctx id t c h = ground arith

-- The outcomes of an update, and the rows that it leaves alone.
abbrev pub UpdateFrame : Customer → Table → Result Error Customer × Table → Type 0
UpdateFrame c t after =
    ((r : Customer) × (after.0 ≡ ok r)
      × (r.id ≡ c.id)
      × ((j : ℤ) → eq_ℤ c.id j ≡ false → find j after.1.rows ≡ find j t.rows))
    ⊎ ((e : Error) × (after.0 ≡ err e) × (after.1 ≡ t))

update_result-err : (e : Error) → (f : Error) × (update_result (err e) ≡ err f)
unfolding update_result
update_result-err e = elim (Bool-cases (error_is e no_rows)) [
  | inl a ↦ (sentinel not_found, rw a)
  | inr a ↦ elim (Bool-cases (is_unique_violation e)) [
    | inl b ↦ (sentinel duplicate_email, rw (a, b))
    | inr b ↦ (wrap (bytes "update customer") e, rw (a, b))
  ]
]

pub update_frame :
    (ctx : Context) (c : Customer) (t : Table) → NotLost ctx.link → UpdateFrame c t (update ctx c t)
update_frame ctx c t n = go ctx.link refl n
  where
    go : (link : Link) → ctx.link ≡ link → NotLost link → UpdateFrame c t (update ctx c t)
    go up l m = elim (update-exact ctx c t l) [
      | inl (a, b, same) ↦ inr (sentinel not_found, b, same)
      | inr (r, found, inl (a, b, same)) ↦ inr (sentinel duplicate_email, b, same)
      | inr (r, found, inr (a, b, rows)) ↦
          inl (
            changed ctx.now c.name c.email r,
            b,
            find-id c.id t.rows r found,
            λ j ne. rows j ∙ rw ne,
          )
    ]
    go (refused e) l m =
        let (f, is) = update_result-err e in
        inr (f, unfold update in ground (arith, is), unfold update in ground arith)
    go (lost e) l m = absurd m

-- The outcomes of a delete, and the rows that it leaves alone.
abbrev pub DeleteFrame : ℤ → Table → Result Error (Unit {0}) × Table → Type 0
DeleteFrame id t after =
    ((after.0 ≡ ok tt) × ((j : ℤ) → eq_ℤ id j ≡ false → find j after.1.rows ≡ find j t.rows))
    ⊎ ((e : Error) × (after.0 ≡ err e) × ((j : ℤ) → find j after.1.rows ≡ find j t.rows))

pub delete_frame :
    (ctx : Context) (id : ℤ) (t : Table) → NotLost ctx.link → DeleteFrame id t (delete ctx id t)
delete_frame ctx id t n = go ctx.link refl n
  where
    go : (link : Link) → ctx.link ≡ link → NotLost link → DeleteFrame id t (delete ctx id t)
    go up l m =
        let (outcome, rows) = delete-exact ctx id t l in
        elim (Option-cases (find id t.rows)) [
          | inl e ↦
              inr (sentinel not_found, ground arith, λ j. ground (arith, rows j, eq_ℤ_iff id j))
          | inr (r, e) ↦ inl (ground arith, λ j ne. rows j ∙ rw ne)
        ]
    go (refused e) l m = inr (
      wrap (bytes "delete customer") e,
      unfold delete in ground arith,
      λ j. unfold delete in ground arith,
    )
    go (lost e) l m = absurd m
