-- ===== src/App/Orders.antt =====
-- About `Run` and `Close` of internal/app/app.go beside the goroutine of `Run`: every order of calls.
use crm_beginner.App.{merge}
use crm_beginner.Base.{
  ◌≡◌, ◌∙◌, ap, refl, inl, inr, Bool, true, false, ◌&&◌, Option, none, some, List, [], ◌∷◌, ◌++◌,
  append-nil, arith, Option-cases,
}
use crm_beginner.Resources.{Action, Held, take, take_all}

module _ (is_good : Option Held → Bool) where
  -- Whether a call can be made, and all is well behind it.
  abbrev behind : Option Held → (Held → Bool) → Bool
  behind none test = false
  behind (some h) test = test h

  -- Whether all orders of two lists of calls lead to a good end.
  abbrev pub every : List Action → List Action → Held → Bool
  every [] ys h = is_good (take_all ys h)
  every (x ∷ xs) [] h = is_good (take_all (x ∷ xs) h)
  every (x ∷ xs) (y ∷ ys) h =
      behind (take x h) (every xs (y ∷ ys)) && behind (take y h) (every (x ∷ xs) ys)

  behind-take :
      (a : Action) (actions : List Action) (h : Held) (test : Held → Bool)
      → behind (take a h) test ≡ true
      → ((h' : Held) → test h' ≡ true → is_good (take_all actions h') ≡ true)
      → is_good (take_all (a ∷ actions) h) ≡ true
  unfolding take_all
  behind-take a actions h test passes later = elim (Option-cases (take a h)) [
    | inl n ↦ absurd (cc (rw n at passes))
    | inr (h', t) ↦ rw (take_all, t) (later h' (rw t at passes))
  ]

  merge-alone : (order : List Bool) (ys : List Action) → merge order [] ys ≡ ys
  unfolding merge
  merge-alone [] ys = refl
  merge-alone (true ∷ order) ys = refl
  merge-alone (false ∷ order) [] = refl
  merge-alone (false ∷ order) (y ∷ ys) = ap (λ z. y ∷ z) (merge-alone order ys)

  merge-last : (order : List Bool) (xs : List Action) → merge order xs [] ≡ xs
  unfolding merge
  merge-last [] xs = append-nil xs
  merge-last (true ∷ order) [] = refl
  merge-last (true ∷ order) (x ∷ xs) = ap (λ z. x ∷ z) (merge-last order xs)
  merge-last (false ∷ order) xs = refl

  pub merge-every :
      (order : List Bool) (xs ys : List Action) (h : Held)
      → every xs ys h ≡ true
      → is_good (take_all (merge order xs ys) h) ≡ true
  unfolding merge
  merge-every order [] ys h e = ap (λ z. is_good (take_all z h)) (merge-alone order ys) ∙ e
  merge-every order (x ∷ xs) [] h e =
      ap (λ z. is_good (take_all z h)) (merge-last order (x ∷ xs)) ∙ e
  merge-every [] (x ∷ xs) (y ∷ ys) h e =
      behind-take x (xs ++ y ∷ ys) h (every xs (y ∷ ys)) (ground arith) (merge-every [] xs (y ∷ ys))
  merge-every (true ∷ order) (x ∷ xs) (y ∷ ys) h e =
      behind-take x (merge order xs (y ∷ ys)) h (every xs (y ∷ ys)) (ground arith)
        (merge-every order xs (y ∷ ys))
  merge-every (false ∷ order) (x ∷ xs) (y ∷ ys) h e =
      behind-take y (merge order (x ∷ xs) ys) h (every (x ∷ xs) ys) (ground arith)
        (merge-every order (x ∷ xs) ys)
