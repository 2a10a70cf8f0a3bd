-- ===== src/Service/World/Calls.antt =====
-- About internal/service/customer.go as internal/app/app.go wires it: what each call returns and the
-- rows that it leaves, where the database and Redis answer.
use crm_beginner.Base.Int.{ℤ, pos}
use crm_beginner.Base.{
  ◌≡◌, ◌⊎◌, inl, inr, refl, sym, ap, ◌∙◌, subst, true, false, none, some, List, [], ◌∷◌, ◌++◌,
  Result, ok, err, Result-cases,
}
use crm_beginner.Domain.Email.{Email, new_email}
use crm_beginner.Domain.{Customer, Error, sentinel, not_found}
use crm_beginner.Postgres.Customers
use crm_beginner.Postgres.Customers.Lookup.{
  taken, create-exact, update-exact, delete-exact, get_by_id_up,
}
use crm_beginner.Postgres.Customers.Rows.{create-rows, update-rows, delete-rows}
use crm_beginner.Postgres.Table.{find, taken_beside, new_row, changed, change, remove}
use crm_beginner.Remote.{up, Applied, NotLost}
use crm_beginner.Service
use crm_beginner.Service.Validation.{create-blank, create-valid, update-valid, update-bad_email}
use crm_beginner.Service.World.Coherence.{Sound, step-Sound}
use crm_beginner.Service.World.Transparency.{
  get_by_id-exact, invalidate_id-outcome, invalidate_row-outcome,
}
use crm_beginner.Service.World.{
  World, Context, Deployment, service, creates, gets, updates, deletes, step,
}
use crm_beginner.Service.{draft}
use crm_beginner.Text.{Bytes, is_empty, trim_space}

-- The database answers, and an invalidation takes effect.
pub record Answers (ctx : Context) : Type 0 where
  pub sql : ctx.sql.link ≡ up
  pub redis : Applied ctx.redis.del_link

NotLost-Answers : (ctx : Context) → Answers ctx → NotLost ctx.sql.link
NotLost-Answers ctx a = subst NotLost (sym a.sql) tt

module _ (d : Deployment) where
  -- The rows that a sound state is left with.
  pub record Leaves (rows : List Customer) (w : World) : Type 0 where
    pub rows_are : w.table.rows ≡ rows
    pub sound : Sound d w

  pub create-new :
      (ctx : Context) (name raw : Bytes) (email : Email) (w : World)
      → Answers ctx
      → Sound d w
      → is_empty (trim_space name) ≡ false
      → new_email d.map_lower raw ≡ ok email
      → taken email.value w.table ≡ false
      → let r = Service.create d.map_lower (service d) ctx name raw w in
        let row = new_row ctx.sql.now w.table.next_id name email.value in
        (r.0 ≡ ok row) × (find row.id w.table.rows ≡ none) × Leaves (w.table.rows ++ (row ∷ [])) r.1
  create-new ctx name raw email w a v given good free =
      let stored = create-valid d.map_lower (service d) ctx name raw w email given good in
      let sound : Sound d (Service.create d.map_lower (service d) ctx name raw w).1 =
        unfold step in step-Sound d ctx (creates name raw) w tt v in
      let rows = create-rows ctx.sql (draft (pos 0) name email.value) w.table a.sql free in
      elim (create-exact ctx.sql (draft (pos 0) name email.value) w.table a.sql v.inv) [
        | inl (dup, reply, rows) ↦ absurd cc
        | inr (same, reply, fresh, found) ↦
            (rw stored reply, fresh, record { rows_are = rw stored rows; sound = sound })
      ]

  -- A create that is refused, for its name or for its address.
  pub create-refused :
      (ctx : Context) (name raw : Bytes) (w : World)
      → Answers ctx
      → Sound d w
      → (is_empty (trim_space name) ≡ true)
        ⊎ ((is_empty (trim_space name) ≡ false)
            × (email : Email) × (new_email d.map_lower raw ≡ ok email)
            × (taken email.value w.table ≡ true))
      → Leaves w.table.rows (Service.create d.map_lower (service d) ctx name raw w).1
  create-refused ctx name raw w a v (inl blank) =
      rw (create-blank d.map_lower (service d) ctx name raw w blank)
        (record { rows_are = refl; sound = v })
  create-refused ctx name raw w a v (inr (given, email, good, dup)) =
      let stored = create-valid d.map_lower (service d) ctx name raw w email given good in
      let sound : Sound d (Service.create d.map_lower (service d) ctx name raw w).1 =
        unfold step in step-Sound d ctx (creates name raw) w tt v in
      elim (create-exact ctx.sql (draft (pos 0) name email.value) w.table a.sql v.inv) [
        | inl (same, reply, rows) ↦ record { rows_are = rw stored rows; sound = sound }
        | inr (free, reply, fresh, found) ↦ absurd cc
      ]

  pub get-found :
      (ctx : Context) (id : ℤ) (w : World)
      → Answers ctx
      → Sound d w
      → let r = Service.get_by_id d.map_lower (service d) ctx id w in
        (r.0 ≡ (elim (find id w.table.rows) [ none ↦ err (sentinel not_found) | some c ↦ ok c ]))
        × Leaves w.table.rows r.1
  get-found ctx id w a v =
      let e = get_by_id-exact d ctx id w a.sql v in
      let sound : Sound d (Service.get_by_id d.map_lower (service d) ctx id w).1 =
        unfold step in step-Sound d ctx (gets id) w tt v in
      (
        e.0 ∙ get_by_id_up ctx.sql id w.table a.sql,
        record { rows_are = ap (λ t. t.rows) e.1; sound = sound },
      )

  pub delete-found :
      (ctx : Context) (id : ℤ) (w : World)
      → Answers ctx
      → Sound d w
      → let r = Service.delete d.map_lower (service d) ctx id w in
        (r.0 ≡ (elim (find id w.table.rows) [ none ↦ err (sentinel not_found) | some c ↦ ok tt ]))
        × Leaves (remove id w.table.rows) r.1
  unfolding Service.delete
  delete-found ctx id w a v =
      let after = Customers.delete ctx.sql id w.table in
      let o = invalidate_id-outcome d ctx id after.0 (record w { table = after.1 }) in
      let sound : Sound d (Service.delete d.map_lower (service d) ctx id w).1 =
        unfold step in step-Sound d ctx (deletes id) w (NotLost-Answers ctx a, a.redis) v in
      (
        o.0 ∙ (delete-exact ctx.sql id w.table a.sql).0,
        record {
          rows_are = ap (λ t. t.rows) o.1 ∙ delete-rows ctx.sql id w.table a.sql;
          sound = sound;
        },
      )

  pub update-new :
      (ctx : Context) (id : ℤ) (name raw : Bytes) (email : Email) (row : Customer) (w : World)
      → Answers ctx
      → Sound d w
      → is_empty (trim_space name) ≡ false
      → new_email d.map_lower raw ≡ ok email
      → find id w.table.rows ≡ some row
      → taken_beside id email.value w.table.rows ≡ false
      → let r = Service.update d.map_lower (service d) ctx id name raw w in
        let f = changed ctx.sql.now name email.value in
        (r.0 ≡ ok (f row)) × Leaves (change id f w.table.rows) r.1
  update-new ctx id name raw email row w a v given good found free =
      let c = draft id name email.value in
      let stored = update-valid d.map_lower (service d) ctx id name raw w email given good in
      let after = Customers.update ctx.sql c w.table in
      let o = invalidate_row-outcome d ctx after.0 (record w { table = after.1 }) in
      let sound : Sound d (Service.update d.map_lower (service d) ctx id name raw w).1 =
        unfold step in
        step-Sound d ctx (updates id name raw) w (NotLost-Answers ctx a, a.redis) v in
      let reply : after.0 ≡ ok (changed ctx.sql.now name email.value row) =
        elim (update-exact ctx.sql c w.table a.sql) [
          | inl (none_found, no_reply, same) ↦ absurd cc
          | inr (r, is, inl (dup, no_reply, same)) ↦ absurd cc
          | inr (r, is, inr (ok_free, good_reply, finds)) ↦ cc
        ] in
      (
        ap (λ (x : Result Error Customer × World). x.0) stored ∙ o.0 ∙ reply,
        record {
          rows_are =
              ap (λ (x : Result Error Customer × World). x.1.table.rows) stored
              ∙ ap (λ t. t.rows) o.1
              ∙ update-rows ctx.sql c row w.table a.sql found free;
          sound = sound;
        },
      )

  pub update-missing :
      (ctx : Context) (id : ℤ) (name raw : Bytes) (w : World)
      → Answers ctx
      → Sound d w
      → is_empty (trim_space name) ≡ false
      → find id w.table.rows ≡ none
      → Leaves w.table.rows (Service.update d.map_lower (service d) ctx id name raw w).1
  update-missing ctx id name raw w a v given missing =
      elim (Result-cases (new_email d.map_lower raw)) [
        | inr (e, bad) ↦
            rw (update-bad_email d.map_lower (service d) ctx id name raw w e given bad)
              (record { rows_are = refl; sound = v })
        | inl (email, good) ↦
            let c = draft id name email.value in
            let stored = update-valid d.map_lower (service d) ctx id name raw w email given good in
            let after = Customers.update ctx.sql c w.table in
            let o = invalidate_row-outcome d ctx after.0 (record w { table = after.1 }) in
            let sound : Sound d (Service.update d.map_lower (service d) ctx id name raw w).1 =
              unfold step in
              step-Sound d ctx (updates id name raw) w (NotLost-Answers ctx a, a.redis) v in
            let same : after.1 ≡ w.table = elim (update-exact ctx.sql c w.table a.sql) [
              | inl (none_found, no_reply, same) ↦ same
              | inr (r, is, rest) ↦ absurd cc
            ] in
            record {
              rows_are =
                  ap (λ (x : Result Error Customer × World). x.1.table.rows) stored
                  ∙ ap (λ t. t.rows) (o.1 ∙ same);
              sound = sound;
            }
      ]
