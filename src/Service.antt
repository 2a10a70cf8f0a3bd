-- ===== src/Service.antt =====
-- internal/service/customer.go: the application logic, over the two ports.
pub mod Validation
pub mod World
use crm_beginner.Base.Int.{ℤ, pos, leb_ℤ, ltb_ℤ}
use crm_beginner.Base.{
  Bool, true, false, Option, none, some, List, [], if◌then◌else◌, Result, ok, err,
}
use crm_beginner.Domain.Email.{Email, new_email}
use crm_beginner.Domain.Ports.{CustomerRepository, CustomerCache}
use crm_beginner.Domain.{Customer, Error, sentinel, invalid_name}
use crm_beginner.Text.{Bytes, is_empty, trim_space}

pub record CustomerService (C S : Type 0) : Type 0 where
  pub repo : CustomerRepository C S
  pub cache : CustomerCache C S

abbrev pub default_list_limit : ℤ
default_list_limit = pos 100

abbrev pub max_list_limit : ℤ
max_list_limit = pos 500

-- The first two tests of `List`.
unfoldable pub clamp : ℤ → ℤ
clamp limit =
    let chosen = if leb_ℤ limit (pos 0) then default_list_limit else limit in
    if ltb_ℤ max_list_limit chosen then max_list_limit else chosen

-- `domain.Customer{ID: id, Name: name, Email: email}`.
abbrev pub draft : ℤ → Bytes → Bytes → Customer
draft id name email = record { id = id; name = name; email = email; created_at = 0; updated_at = 0 }

-- The validation that `Create` and `Update` share.
pub check : (Bytes → Bytes) → Bytes → Bytes → Result Error Email
check map_lower name raw_email =
    if is_empty (trim_space name)
    then err (sentinel invalid_name)
    else new_email map_lower raw_email

module _ {C S : Type 0} (map_lower : Bytes → Bytes) (s : CustomerService C S) where
  -- `Create`.
  unfoldable pub create : C → Bytes → Bytes → S → Result Error Customer × S
  unfolding check
  create ctx name raw_email w = elim (check map_lower name raw_email) [
    | err e ↦ (err e, w)
    | ok email ↦ s.repo.create ctx (draft (pos 0) name email.value) w
  ]

  fill : C → Result Error Customer × S → Result Error Customer × S
  fill ctx (err e, w) = (err e, w)
  fill ctx (ok c, w) = (ok c, s.cache.set ctx c w)

  -- `GetByID`.
  unfoldable pub get_by_id : C → ℤ → S → Result Error Customer × S
  unfolding fill
  get_by_id ctx id w = elim (s.cache.get ctx id w) [
    | some c ↦ (ok c, w)
    | none ↦ fill ctx (s.repo.get_by_id ctx id w)
  ]

  pub invalidate_row : C → Result Error Customer × S → Result Error Customer × S
  invalidate_row ctx (err e, w) = (err e, w)
  invalidate_row ctx (ok c, w) = (ok c, s.cache.invalidate ctx c.id w)

  -- `Update`.
  unfoldable pub update : C → ℤ → Bytes → Bytes → S → Result Error Customer × S
  unfolding check invalidate_row
  update ctx id name raw_email w = elim (check map_lower name raw_email) [
    | err e ↦ (err e, w)
    | ok email ↦ invalidate_row ctx (s.repo.update ctx (draft id name email.value) w)
  ]

  -- `List`.
  unfoldable pub list : C → ℤ → S → Result Error (List Customer) × S
  unfolding clamp
  list ctx limit w = s.repo.list ctx (clamp limit) w

  pub invalidate_id : C → ℤ → Result Error (Unit {0}) × S → Result Error (Unit {0}) × S
  invalidate_id ctx id (err e, w) = (err e, w)
  invalidate_id ctx id (ok u, w) = (ok u, s.cache.invalidate ctx id w)

  -- `Delete`.
  unfoldable pub delete : C → ℤ → S → Result Error (Unit {0}) × S
  unfolding invalidate_id
  delete ctx id w = invalidate_id ctx id (s.repo.delete ctx id w)
