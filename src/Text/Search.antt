-- ===== src/Text/Search.antt =====
-- About `equal`.
use crm_beginner.Base.{◌≡◌, ◌↔◌, refl, true, ◌∷◌, arith}
use crm_beginner.Text.{Bytes, equal}

pub equal_iff : (s t : Bytes) → (equal s t ≡ true) ↔ (s ≡ t)
unfolding equal
equal_iff (a ∷ s) (b ∷ t) = ground (arith, equal_iff s t)
equal_iff _ _ = ground arith

pub equal_self : (s : Bytes) → equal s s ≡ true
equal_self s = (equal_iff s s).1 refl
