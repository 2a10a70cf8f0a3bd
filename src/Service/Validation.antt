-- ===== src/Service/Validation.antt =====
-- About `Create` and `Update` of internal/service/customer.go: their validation.
use crm_beginner.Base.Int.{ℤ, pos}
use crm_beginner.Base.{◌≡◌, true, false, ok, err}
use crm_beginner.Domain.Email.{Email, new_email}
use crm_beginner.Domain.{Error, sentinel, invalid_name}
use crm_beginner.Service.{CustomerService, create, update, invalidate_row, draft}
use crm_beginner.Text.{Bytes, is_empty, trim_space}

module _ {C S : Type 0} (map_lower : Bytes → Bytes) (s : CustomerService C S) (ctx : C) where
  pub create-blank :
      (name raw : Bytes) (w : S)
      → is_empty (trim_space name) ≡ true
      → create map_lower s ctx name raw w ≡ (err (sentinel invalid_name), w)
  unfolding create
  create-blank name raw w h = rw (h, create)

  pub create-bad_email :
      (name raw : Bytes) (w : S) (e : Error)
      → is_empty (trim_space name) ≡ false
      → new_email map_lower raw ≡ err e
      → create map_lower s ctx name raw w ≡ (err e, w)
  unfolding create
  create-bad_email name raw w e h k = rw (h, k, create)

  pub create-valid :
      (name raw : Bytes) (w : S) (email : Email)
      → is_empty (trim_space name) ≡ false
      → new_email map_lower raw ≡ ok email
      → create map_lower s ctx name raw w ≡ s.repo.create ctx (draft (pos 0) name email.value) w
  unfolding create
  create-valid name raw w email h k = rw (h, k, create)

  pub update-valid :
      (id : ℤ) (name raw : Bytes) (w : S) (email : Email)
      → is_empty (trim_space name) ≡ false
      → new_email map_lower raw ≡ ok email
      → update map_lower s ctx id name raw w
        ≡ invalidate_row map_lower s ctx (s.repo.update ctx (draft id name email.value) w)
  unfolding update
  update-valid id name raw w email h k = rw (h, k, update)

  pub update-bad_email :
      (id : ℤ) (name raw : Bytes) (w : S) (e : Error)
      → is_empty (trim_space name) ≡ false
      → new_email map_lower raw ≡ err e
      → update map_lower s ctx id name raw w ≡ (err e, w)
  unfolding update
  update-bad_email id name raw w e h k = rw (h, k, update)
