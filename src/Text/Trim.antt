-- ===== src/Text/Trim.antt =====
-- About `trim_space` on ASCII text.
use mathlib.Core.List.{reverse-append, reverse-reverse, reverse-cons, map-append}
use crm_beginner.Base.{
  ℕ, ◌≤◌, ◌≡◌, refl, sym, ap, ◌∙◌, ◌⊎◌, inl, inr, Bool, true, [], ◌∷◌, ◌++◌, map, reverse,
  append-nil, append_assoc, all, all-append, if◌then◌else◌, arith, length, Bool-cases,
}
use crm_beginner.Text.{
  Bytes, is_ascii, is_space, is_space_pair, is_space_triple, leading_space, trailing_space, trim_by,
  trim_space, lower_byte,
}

abbrev pub IsAscii : Bytes → Type 0
IsAscii s = all is_ascii s ≡ true

abbrev pub IsBlank : Bytes → Type 0
IsBlank s = all is_space s ≡ true

skip : Bytes → Bytes
skip [] = []
skip (c ∷ s) = if is_space c then skip s else c ∷ s

leading_space-ascii :
    (c : ℕ) (s : Bytes) → IsAscii (c ∷ s) → leading_space (c ∷ s) ≡ (if is_space c then 1 else 0)
unfolding leading_space is_space_pair is_space_triple
leading_space-ascii c [] h = refl
leading_space-ascii c (b ∷ []) h = ground arith
leading_space-ascii c (b ∷ a ∷ s) h = ground arith

trailing_space-ascii :
    (c : ℕ) (s : Bytes) → IsAscii (c ∷ s) → trailing_space (c ∷ s) ≡ (if is_space c then 1 else 0)
unfolding trailing_space is_space_pair is_space_triple
trailing_space-ascii c [] h = refl
trailing_space-ascii c (b ∷ []) h = ground arith
trailing_space-ascii c (b ∷ a ∷ s) h = ground arith

trim_by-skip :
    (width : Bytes → ℕ)
    → ((c : ℕ) (s : Bytes) → IsAscii (c ∷ s) → width (c ∷ s) ≡ (if is_space c then 1 else 0))
    → (s : Bytes) → IsAscii s
    → trim_by width 0 s ≡ skip s
unfolding trim_by skip
trim_by-skip width w [] h = refl
trim_by-skip width w (c ∷ s) h = elim (Bool-cases (is_space c)) [
  | inl e ↦ ground (arith, w c s h, trim_by-skip width w s)
  | inr e ↦ ground (arith, w c s h)
]

all-reverse : (p : ℕ → Bool) (s : Bytes) → all p (reverse s) ≡ all p s
all-reverse p [] = refl
all-reverse p (c ∷ s) =
    rw (reverse-cons c s, all-append p (reverse s) (c ∷ [])) (ground (arith, all-reverse p s))

skip-IsAscii : (s : Bytes) → IsAscii s → IsAscii (skip s)
unfolding skip
skip-IsAscii [] h = refl
skip-IsAscii (c ∷ s) h = ground (arith, skip-IsAscii s)

pub trim_ascii : Bytes → Bytes
trim_ascii s = reverse (skip (reverse (skip s)))

pub trim_space-trim_ascii : (s : Bytes) → IsAscii s → trim_space s ≡ trim_ascii s
unfolding trim_space trim_ascii
trim_space-trim_ascii s h = rw (trim_by-skip leading_space leading_space-ascii s h) (
    rw (
      trim_by-skip trailing_space trailing_space-ascii (reverse (skip s))
        (all-reverse is_ascii (skip s) ∙ skip-IsAscii s h)))

-- The spaces in front.
skip-append_blank : (p s : Bytes) → IsBlank p → skip (p ++ s) ≡ skip s
unfolding skip
skip-append_blank [] s h = refl
skip-append_blank (c ∷ p) s h = ground (arith, skip-append_blank p s)

-- The spaces behind.
skip-blank_behind :
    (s q : Bytes)
    → IsBlank q
    → ((skip s ≡ []) × (skip (s ++ q) ≡ [])) ⊎ (skip (s ++ q) ≡ skip s ++ q)
unfolding skip
skip-blank_behind [] q h = inl (refl, rw (← append-nil q) (skip-append_blank q [] h))
skip-blank_behind (c ∷ s) q h = elim (Bool-cases (is_space c)) [
  | inl e ↦ rw e (skip-blank_behind s q h)
  | inr e ↦ inr (rw e)
]

skip_splits : (s : Bytes) → (p : Bytes) × (s ≡ p ++ skip s)
unfolding skip
skip_splits [] = ([], refl)
skip_splits (c ∷ s) = elim (Bool-cases (is_space c)) [
  | inl e ↦ let (p, q) = skip_splits s in (c ∷ p, rw e (ap (◌∷◌ c) q))
  | inr e ↦ ([], rw e)
]

skip_idem : (s : Bytes) → skip (skip s) ≡ skip s
unfolding skip
skip_idem [] = refl
skip_idem (c ∷ s) = elim (Bool-cases (is_space c)) [
  | inl e ↦ rw e (skip_idem s)
  | inr e ↦ rw (e, skip) (rw e)
]

length-skip-le : (s : Bytes) → length (skip s) ≤ length s
unfolding skip
length-skip-le [] = omega arith
length-skip-le (c ∷ s) = ground (arith, length-skip-le s)

-- A string that begins with no space still does so when its end is cut off.
skip_prefix : (a z : Bytes) → skip (a ++ z) ≡ a ++ z → skip a ≡ a
unfolding skip
skip_prefix [] z h = refl
skip_prefix (c ∷ a) z h = elim (Bool-cases (is_space c)) [
  | inl e ↦ absurd (omega (arith, ap length (rw e at h), length-skip-le (a ++ z)))
  | inr e ↦ rw e
]

pub trim_ascii_idem : (s : Bytes) → trim_ascii (trim_ascii s) ≡ trim_ascii s
unfolding trim_ascii
trim_ascii_idem s =
    let y = skip (reverse (skip s)) in
    let (p, split) = skip_splits (reverse (skip s)) in
    let back : skip s ≡ reverse y ++ reverse p =
      sym (reverse-reverse (skip s)) ∙ ap reverse split ∙ reverse-append p y in
    let kept : skip (reverse y) ≡ reverse y =
      skip_prefix (reverse y) (reverse p) (rw (← back) (skip_idem s)) in
    rw (kept, reverse-reverse y, skip_idem (reverse (skip s)))

pub trim_ascii-pad :
    (p s q : Bytes) → IsBlank p → IsBlank q → trim_ascii (p ++ s ++ q) ≡ trim_ascii s
unfolding trim_ascii
trim_ascii-pad p s q hp hq =
    rw (append_assoc p s q, skip-append_blank p (s ++ q) hp)
      (elim (skip-blank_behind s q hq) [
        | inl e ↦ rw (e.0, e.1)
        | inr e ↦
            rw (e, reverse-append (skip s) q)
              (ap reverse
                (skip-append_blank (reverse q) (reverse (skip s)) (all-reverse is_space q ∙ hq)))
      ])

is_space-lower_byte : (c : ℕ) → is_space (lower_byte c) ≡ is_space c
unfolding is_space lower_byte
is_space-lower_byte c = ground arith

skip-lower : (s : Bytes) → skip (map lower_byte s) ≡ map lower_byte (skip s)
unfolding skip
skip-lower [] = refl
skip-lower (c ∷ s) = ground (arith, is_space-lower_byte c, skip-lower s)

reverse-map : (f : ℕ → ℕ) (s : Bytes) → reverse (map f s) ≡ map f (reverse s)
reverse-map f [] = refl
reverse-map f (c ∷ s) = rw (
  reverse-cons (f c) (map f s),
  reverse-cons c s,
  map-append f (reverse s) (c ∷ []),
  reverse-map f s,
)

pub trim_ascii-lower : (s : Bytes) → trim_ascii (map lower_byte s) ≡ map lower_byte (trim_ascii s)
unfolding trim_ascii
trim_ascii-lower s = rw (
  skip-lower s,
  reverse-map lower_byte (skip s),
  skip-lower (reverse (skip s)),
  reverse-map lower_byte (skip (reverse (skip s))),
)

pub trim_ascii-IsAscii : (s : Bytes) → IsAscii s → IsAscii (trim_ascii s)
unfolding trim_ascii
trim_ascii-IsAscii s h =
    all-reverse is_ascii (skip (reverse (skip s)))
    ∙ skip-IsAscii (reverse (skip s)) (all-reverse is_ascii (skip s) ∙ skip-IsAscii s h)
