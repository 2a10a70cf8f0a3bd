-- ===== src/Client.antt =====
-- cmd/client/main.go: the client that calls each method of the customers in turn.
pub mod Passes
use crm_beginner.Base.Int.{ℤ, pos}
use crm_beginner.Base.{ℕ, Bool, true, false, Option, none, some, [], if◌then◌else◌, Result, ok, err}
use crm_beginner.Grpc.Customers.{
  CreateCustomerResponse, GetCustomerResponse, DeleteCustomerResponse, create_customer,
  get_customer, update_customer, delete_customer,
}
use crm_beginner.Grpc.Status.{
  Code, Status, invalid_argument, not_found_code, already_exists, internal, unavailable,
}
use crm_beginner.Service.{CustomerService}
use crm_beginner.Text.{Bytes, bytes}

-- The methods that it calls: a call is given what it meets on its way, and the server's state.
pub record CustomerClient (C S : Type 0) : Type 0 where
  pub create_customer : C → Bytes → Bytes → S → Result Status CreateCustomerResponse × S
  pub get_customer : C → ℤ → S → Result Status GetCustomerResponse × S
  pub update_customer : C → ℤ → Bytes → Bytes → S → Result Status GetCustomerResponse × S
  pub delete_customer : C → ℤ → S → Result Status DeleteCustomerResponse × S

-- The calls of `log.Fatalf`.
pub data Fatal : Type 0 where
  create_failed get_failed update_failed delete_failed : Status → Fatal
  expected_not_found : Code → Fatal

is_not_found : Code → Bool
is_not_found not_found_code = true
is_not_found _ = false

-- `if err != nil { log.Fatalf(…) }`.
or_fatal :
    {A S : Type 0}
    → (Status → Fatal)
    → Result Status A × S
    → (A → S → Option Fatal × S)
    → Option Fatal × S
or_fatal fatal (ok a, w) next = next a w
or_fatal fatal (err s, w) next = (some (fatal s), w)

-- `if err != nil { … if st.Code() != codes.NotFound { log.Fatalf(…) } }`.
unless_not_found : {A S : Type 0} → Result Status A × S → (S → Option Fatal × S) → Option Fatal × S
unfolding is_not_found
unless_not_found (ok a, w) next = next w
unless_not_found (err s, w) next =
    let rest = next w in if is_not_found s.code then rest else (some (expected_not_found s.code), w)

-- The calls of `main` in its order, from the last ones on; `ctx n` is what the call numbered n meets.
module _ {C S : Type 0} (client : CustomerClient C S) (ctx : ℕ → C) where
  -- 8. to 10.: delete, read and delete again.
  delete_steps : ℤ → S → Option Fatal × S
  unfolding or_fatal unless_not_found
  delete_steps id w = or_fatal delete_failed (client.delete_customer (ctx 7) id w) λ deleted w'.
      unless_not_found (client.get_customer (ctx 8) id w')
        λ w''. (none, (client.delete_customer (ctx 9) id w'').1)

  -- 6. and 7.: update, also what is not there.
  update_steps : ℤ → Bytes → S → Option Fatal × S
  unfolding delete_steps
  update_steps id new_email w =
      or_fatal update_failed (client.update_customer (ctx 5) id (bytes "Ali A. Rezaei") new_email w)
        λ updated w'.
          delete_steps id
            (client.update_customer (ctx 6) (pos 999999) (bytes "Nobody")
              (bytes "nobody@example.com") w').1

  -- 3. to 5.: what is refused.
  refused_steps : ℤ → Bytes → Bytes → S → Option Fatal × S
  unfolding update_steps
  refused_steps id email new_email w =
      unless_not_found (client.get_customer (ctx 2) (pos 999999) w) λ w'.
        update_steps id new_email
          (client.create_customer (ctx 4) (bytes "Impostor") email
            (client.create_customer (ctx 3) [] [] w').1).1

  -- `main`, with the two addresses that it makes of the time.
  unfoldable pub main : Bytes → Bytes → S → Option Fatal × S
  unfolding refused_steps
  main email new_email w =
      or_fatal create_failed (client.create_customer (ctx 0) (bytes "Ali Rezaei") email w)
        λ created w'.
          or_fatal get_failed (client.get_customer (ctx 1) created.id w')
            λ got w''. refused_steps created.id email new_email w''

-- The handlers of a server, where nothing comes between the two.
abbrev pub direct :
    {C S : Type 0} → (ℕ → Bytes) → (Bytes → Bytes) → CustomerService C S → CustomerClient C S
direct format_time map_lower svc = record {
  create_customer = create_customer format_time map_lower svc;
  get_customer = get_customer format_time map_lower svc;
  update_customer = update_customer format_time map_lower svc;
  delete_customer = delete_customer format_time map_lower svc;
}
