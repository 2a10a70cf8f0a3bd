-- ===== src/Remote.antt =====
-- A request to a server that the program does not implement (Postgres, Redis): what the
-- connection does to it.
use crm_beginner.Base.{Result, err}
use crm_beginner.Domain.{Error}

-- The request is answered, never reaches the server, or takes effect while its reply is lost.
pub data Link : Type 0 where
  up : Link
  refused lost : Error → Link

abbrev pub exec {ℓ κ} :
    {A : Type ℓ} {S : Type κ} → Link → (S → Result Error A × S) → S → Result Error A × S
exec up run s = run s
exec (refused e) run s = (err e, s)
exec (lost e) run s = (err e, (run s).1)

-- The request takes effect.
abbrev pub Applied : Link → Type 0
Applied up = Unit
Applied (refused e) = ⊥
Applied (lost e) = Unit

-- The reply to a request that takes effect is not lost.
abbrev pub NotLost : Link → Type 0
NotLost up = Unit
NotLost (refused e) = Unit
NotLost (lost e) = ⊥
