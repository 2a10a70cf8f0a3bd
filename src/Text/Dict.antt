-- ===== src/Text/Dict.antt =====
-- Go's maps with string keys, as association lists.
use crm_beginner.Base.{
  ◌≡◌, refl, ap, inl, inr, Bool-cases, Bool, Option, none, some, List, [], ◌∷◌, if◌then◌else◌,
  arith,
}
use crm_beginner.Text.Search.{equal_iff}
use crm_beginner.Text.{Bytes, equal}

module _ {V : Type 0} where
  -- `m[key]`.
  unfoldable pub lookup : Bytes → List (Bytes × V) → Option V
  lookup key [] = none
  lookup key ((k, v) ∷ m) = if equal k key then some v else lookup key m

  -- `m[key] = v`.
  unfoldable pub insert : Bytes → V → List (Bytes × V) → List (Bytes × V)
  insert key v [] = (key, v) ∷ []
  insert key v ((k, w) ∷ m) =
      let rest = insert key v m in if equal k key then (key, v) ∷ m else (k, w) ∷ rest

  -- `for key := range m { if !keep[key] { delete(m, key) } }`.
  unfoldable pub keep_only : (Bytes → Bool) → List (Bytes × V) → List (Bytes × V)
  keep_only keep [] = []
  keep_only keep ((k, v) ∷ m) =
      let rest = keep_only keep m in if keep k then (k, v) ∷ rest else rest

  pub lookup-insert :
      (key j : Bytes) (v : V) (m : List (Bytes × V))
      → lookup j (insert key v m) ≡ (if equal key j then some v else lookup j m)
  unfolding lookup insert
  lookup-insert key j v [] = refl
  lookup-insert key j v ((k, w) ∷ m) =
      ground (arith, equal_iff k key, equal_iff k j, equal_iff key j, lookup-insert key j v m)

  pub lookup-keep_only :
      (keep : Bytes → Bool) (j : Bytes) (m : List (Bytes × V))
      → lookup j (keep_only keep m) ≡ (if keep j then lookup j m else none)
  unfolding lookup keep_only
  lookup-keep_only keep j [] = ground arith
  lookup-keep_only keep j ((k, w) ∷ m) = elim (Bool-cases (equal k j)) [
    | inl e ↦
        ground (arith, ap keep ((equal_iff k j).0 e), equal_iff k j, lookup-keep_only keep j m)
    | inr e ↦ ground (arith, lookup-keep_only keep j m)
  ]
