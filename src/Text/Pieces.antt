-- ===== src/Text/Pieces.antt =====
-- About `split`, `last_index` and `cut_suffix` on texts put together from pieces.
use crm_beginner.Base.{
  ℕ, ◌≡◌, refl, ap, inl, inr, true, false, not, none, some, [], ◌∷◌, ◌++◌, ◌==◌, all, length,
  length-append, take, arith, Bool-cases,
}
use crm_beginner.Text.Search.{equal_iff, equal_self}
use crm_beginner.Text.{Bytes, split, onto_first, last_index, cut_suffix, equal}

-- The byte is not in the text.
abbrev pub Lacks : ℕ → Bytes → Type 0
Lacks b s = all (λ c. not (c == b)) s ≡ true

pub Lacks-append : (b : ℕ) (s t : Bytes) → Lacks b s → Lacks b t → Lacks b (s ++ t)
Lacks-append b [] t h k = k
Lacks-append b (c ∷ s) t h k = ground (arith, Lacks-append b s t)

pub split-Lacks : (b : ℕ) (s : Bytes) → Lacks b s → split b s ≡ s ∷ []
unfolding split
split-Lacks b [] h = refl
split-Lacks b (c ∷ s) h =
    let rest : split b s ≡ s ∷ [] = split-Lacks b s (ground arith) in
    let other : (c == b) ≡ false = ground arith in rw (split, other, rest, onto_first) refl

pub split-append : (b : ℕ) (s t : Bytes) → Lacks b s → split b (s ++ b ∷ t) ≡ s ∷ split b t
unfolding split
split-append b [] t h = let same : (b == b) ≡ true = ground arith in rw (split, same) refl
split-append b (c ∷ s) t h =
    let rest : split b (s ++ b ∷ t) ≡ s ∷ split b t = split-append b s t (ground arith) in
    let other : (c == b) ≡ false = ground arith in rw (split, other, rest, onto_first) refl

last_index-Lacks : (b : ℕ) (s : Bytes) → Lacks b s → last_index s b ≡ none
unfolding last_index
last_index-Lacks b [] h = refl
last_index-Lacks b (c ∷ s) h =
    let rest : last_index s b ≡ none = last_index-Lacks b s (ground arith) in
    let other : (c == b) ≡ false = ground arith in rw (last_index, rest, other) refl

pub last_index-append :
    (b : ℕ) (s t : Bytes) → Lacks b t → last_index (s ++ b ∷ t) b ≡ some (length s)
unfolding last_index
last_index-append b [] t h =
    let same : (b == b) ≡ true = ground arith in rw (last_index, last_index-Lacks b t h, same) refl
last_index-append b (c ∷ s) t h = rw (last_index, last_index-append b s t h) refl

pub take-append : (s t : Bytes) → take (length s) (s ++ t) ≡ s
take-append [] t = refl
take-append (c ∷ s) t = ap (λ z. c ∷ z) (take-append s t)

-- A longer text is not the suffix.
longer : (c : ℕ) (s t : Bytes) → equal (c ∷ (s ++ t)) t ≡ false
longer c s t = elim (Bool-cases (equal (c ∷ (s ++ t)) t)) [
  | inl h ↦ absurd (omega (arith, ap length ((equal_iff (c ∷ (s ++ t)) t).0 h), length-append s t))
  | inr h ↦ h
]

pub cut_suffix-append : (s t : Bytes) → cut_suffix (s ++ t) t ≡ some s
unfolding cut_suffix
cut_suffix-append [] [] = refl
cut_suffix-append [] (c ∷ t) = rw (cut_suffix, equal_self (c ∷ t)) refl
cut_suffix-append (c ∷ s) t = rw (cut_suffix, longer c s t, cut_suffix-append s t) refl
