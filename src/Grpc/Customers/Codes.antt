-- ===== src/Grpc/Customers/Codes.antt =====
-- About internal/adapter/grpc/customer_handler.go over the deployed service.
use crm_beginner.Base.Int.{pos, eq_ℤ_self}
use crm_beginner.Base.{
  ℕ, ◌≡◌, ◌⊎◌, inl, inr, refl, sym, ap, subst, ◌∙◌, true, false, some, Result, ok, err, arith,
  Bool-cases, Result-cases,
}
use crm_beginner.Domain.Email.{Email, new_email}
use crm_beginner.Domain.Email.Shape.{new_email-error}
use crm_beginner.Domain.{Customer, Error, sentinel, invalid_email}
use crm_beginner.Grpc.Customers.{CreateCustomerResponse, create_customer, get_customer, to_proto}
use crm_beginner.Grpc.Status.{already_exists, invalid_argument, to_grpc_error}
use crm_beginner.Postgres.Customers.Lookup.{taken, create-exact, get_by_id_up}
use crm_beginner.Postgres.Table.{find, new_row}
use crm_beginner.Remote.{up}
use crm_beginner.Service
use crm_beginner.Service.{draft}
use crm_beginner.Service.Validation.{create-blank, create-bad_email, create-valid}
use crm_beginner.Service.World.Coherence.{Sound, step-Sound}
use crm_beginner.Service.World.Transparency.{get_by_id-exact}
use crm_beginner.Service.World.{World, Context, Deployment, service, creates, step}
use crm_beginner.Text.{Bytes, bytes, is_empty, trim_space}

module _ (format_time : ℕ → Bytes) (d : Deployment) where
  abbrev pub CreateReply : Context → Bytes → Bytes → World → Type 0
  CreateReply ctx name raw_email w =
      let reply = (create_customer format_time d.map_lower (service d) ctx name raw_email w).0 in
      ((is_empty (trim_space name) ≡ true)
        × (reply
            ≡ err (record { code = invalid_argument; message = bytes "name must not be empty" })))
      ⊎ ((is_empty (trim_space name) ≡ false)
          × (new_email d.map_lower raw_email ≡ err (sentinel invalid_email))
          × (reply
              ≡ err (record {
                code = invalid_argument;
                message = bytes "email must be a non-empty, valid address";
              })))
      ⊎ ((is_empty (trim_space name) ≡ false)
          × (email : Email) × (new_email d.map_lower raw_email ≡ ok email)
          × (((taken email.value w.table ≡ true)
                × (reply
                    ≡ err
                        (record { code = already_exists; message = bytes "email already exists" })))
              ⊎ ((taken email.value w.table ≡ false)
                  × (reply
                      ≡ ok (record {
                        id = pos w.table.next_id;
                        message = bytes "customer created";
                      })))))

  -- When the database answers and the state is sound, `CreateCustomer` replies with the code
  -- InvalidArgument to a blank name, else with InvalidArgument to an email that `NewEmail` refuses,
  -- else with AlreadyExists if a row holds the normalised email, and else with the next id of the
  -- sequence; each with its message.
  pub create_customer-codes :
      (ctx : Context) (name raw_email : Bytes) (w : World)
      → ctx.sql.link ≡ up
      → Sound d w
      → CreateReply ctx name raw_email w
  unfolding create_customer to_grpc_error
  create_customer-codes ctx name raw_email w l v = elim (Bool-cases (is_empty (trim_space name))) [
    | inl blank ↦ inl (blank, rw (create-blank d.map_lower (service d) ctx name raw_email w blank))
    | inr given ↦ elim (Result-cases (new_email d.map_lower raw_email)) [
      | inr (e, bad) ↦
          let is = new_email-error d.map_lower raw_email e bad in
          inr (
            inl (
              given,
              bad ∙ ap err is,
              rw (create-bad_email d.map_lower (service d) ctx name raw_email w e given bad, is)
                  refl,
            ))
      | inl (email, good) ↦
          let stored = create-valid d.map_lower (service d) ctx name raw_email w email given good in
          inr (
            inr (
              given,
              email,
              good,
              elim (create-exact ctx.sql (draft (pos 0) name email.value) w.table l v.inv) [
                | inl (dup, reply, rows) ↦ inl (dup, rw (stored, reply))
                | inr (free, reply, fresh, rows) ↦ inr (free, rw (stored, reply))
              ],
            ))
    ]
  ]

  -- The customer that a create has made, and the row that its id finds.
  created_row :
      (ctx : Context) (name raw_email : Bytes) (w : World) (c : Customer)
      → ctx.sql.link ≡ up
      → Sound d w
      → (Service.create d.map_lower (service d) ctx name raw_email w).0 ≡ ok c
      → (email : Email) × (new_email d.map_lower raw_email ≡ ok email)
        × (c ≡ new_row ctx.sql.now w.table.next_id name email.value)
        × (find c.id (Service.create d.map_lower (service d) ctx name raw_email w).1.table.rows
            ≡ some c)
  created_row ctx name raw_email w c l v h = elim (Bool-cases (is_empty (trim_space name))) [
    | inl blank ↦ absurd (
        cc (
          ap (λ (r : Result Error Customer × World). r.0)
            (create-blank d.map_lower (service d) ctx name raw_email w blank)))
    | inr given ↦ elim (Result-cases (new_email d.map_lower raw_email)) [
      | inr (e, bad) ↦ absurd (
          cc (
            ap (λ (r : Result Error Customer × World). r.0)
              (create-bad_email d.map_lower (service d) ctx name raw_email w e given bad)))
      | inl (email, good) ↦
          let stored = create-valid d.map_lower (service d) ctx name raw_email w email given good in
          elim (create-exact ctx.sql (draft (pos 0) name email.value) w.table l v.inv) [
            | inl (dup, reply, rows) ↦ absurd (cc (rw stored at h, reply))
            | inr (free, reply, fresh, rows) ↦
                let row = new_row ctx.sql.now w.table.next_id name email.value in
                let is : c ≡ row = cc (rw stored at h, reply) in
                (
                  email,
                  good,
                  is,
                  subst
                      (λ (x : Customer).
                        find x.id
                          (Service.create d.map_lower (service d) ctx name raw_email w).1.table.rows
                        ≡ some x)
                      (sym is) (rw stored (rows row.id ∙ rw (eq_ℤ_self row.id))),
                )
          ]
    ]
  ]

  -- From a sound state, when `CreateCustomer` succeeds and the database answers both calls,
  -- `GetCustomer` with the id of the reply returns the customer: its name as it was given, the email
  -- as `NewEmail` normalises it, and the time of the creation twice.
  pub get_customer-create_customer :
      (ctx later : Context) (name raw_email : Bytes) (w : World) (created : CreateCustomerResponse)
      → ctx.sql.link ≡ up
      → later.sql.link ≡ up
      → Sound d w
      → (create_customer format_time d.map_lower (service d) ctx name raw_email w).0 ≡ ok created
      → (email : Email) × (new_email d.map_lower raw_email ≡ ok email)
        × ((get_customer format_time d.map_lower
              (service d)
              later
              created.id
              (create_customer format_time d.map_lower (service d) ctx name raw_email w).1).0
            ≡ ok (record {
              id = created.id;
              name = name;
              email = email.value;
              created_at = format_time ctx.sql.now;
              updated_at = format_time ctx.sql.now;
            }))
  unfolding create_customer get_customer to_proto
  get_customer-create_customer ctx later name raw_email w created l l' v h =
      elim (Result-cases (Service.create d.map_lower (service d) ctx name raw_email w).0) [
        | inr (e, bad) ↦ absurd (cc (rw bad at h))
        | inl (c, good) ↦
            let (email, valid, is, found) = created_row ctx name raw_email w c l v good in
            let w' = (Service.create d.map_lower (service d) ctx name raw_email w).1 in
            let v' : Sound d w' = unfold step in step-Sound d ctx (creates name raw_email) w tt v in
            let same : created.id ≡ c.id = cc (rw good at h) in
            let read =
              (get_by_id-exact d later c.id w' l' v').0 ∙ get_by_id_up later.sql c.id w'.table l' in
            let got : (Service.get_by_id d.map_lower (service d) later created.id w').0 ≡ ok c =
              subst (λ i. (Service.get_by_id d.map_lower (service d) later i w').0 ≡ ok c)
                (sym same) (read ∙ rw found) in
            (email, valid, rw got (ground (arith, is, same)))
      ]
