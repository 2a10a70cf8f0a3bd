-- ===== src/Text/Decimal.antt =====
-- Integers in decimal, as `fmt` prints them with %d.
use crm_beginner.Base.Int.{ℤ, pos, negsuc}
use crm_beginner.Base.{
  ℕ, zero, suc, ◌+◌, ◌-◌, ◌*◌, ◌/◌, ◌%◌, ◌<◌, ◌≡◌, refl, sym, ap, ◌∙◌, [], ◌∷◌, ◌++◌, ltb,
  if◌then◌else◌, arith, Bool-cases, inl, inr, true, all, leb, ◌&&◌, all-append,
}
use crm_beginner.Text.{Bytes}

-- The fuel bounds the number of digits; a number has fewer digits than it counts, so that
-- `suc n` is enough for `n`.
digits : ℕ → ℕ → Bytes
digits zero n = []
digits (suc fuel) n =
    let front = digits fuel (n / 10) in
    if ltb n 10 then (48 + n) ∷ [] else front ++ (48 + n % 10) ∷ []

unfoldable pub decimal : ℕ → Bytes
unfolding digits
decimal n = digits (suc n) n

unfoldable pub decimal_int : ℤ → Bytes
unfolding decimal
decimal_int (pos n) = decimal n
decimal_int (negsuc n) = b'-' ∷ decimal (suc n)

value_from : ℕ → Bytes → ℕ
value_from acc [] = acc
value_from acc (c ∷ s) = value_from (acc * 10 + (c - 48)) s

value_from-append :
    (acc : ℕ) (s : Bytes) (c : ℕ) → value_from acc (s ++ c ∷ []) ≡ value_from acc s * 10 + (c - 48)
unfolding value_from
value_from-append acc [] c = refl
value_from-append acc (d ∷ s) c = value_from-append (acc * 10 + (d - 48)) s c

value_from-digits : (fuel n : ℕ) → n < fuel → value_from 0 (digits fuel n) ≡ n
unfolding digits
value_from-digits zero n h = absurd (omega arith)
value_from-digits (suc fuel) n h = elim (Bool-cases (ltb n 10)) [
  | inl e ↦ rw e (unfold value_from in omega arith)
  | inr e ↦
      rw (e, value_from-append 0 (digits fuel (n / 10)) (48 + n % 10))
        (let ih = value_from-digits fuel (n / 10) (ground arith) in omega arith)
]

-- Every byte is a digit.
all-digits : (fuel n : ℕ) → all (λ c. leb 48 c && leb c 57) (digits fuel n) ≡ true
unfolding digits
all-digits zero n = refl
all-digits (suc fuel) n = elim (Bool-cases (ltb n 10)) [
  | inl e ↦ rw e (ground arith)
  | inr e ↦
      rw
        (
          e,
          all-append (λ c. leb 48 c && leb c 57) (digits fuel (n / 10)) ((48 + n % 10) ∷ []),
          all-digits fuel (n / 10),
        )
        (ground arith)
]

pub decimal-injective : (n m : ℕ) → decimal n ≡ decimal m → n ≡ m
unfolding decimal
decimal-injective n m e =
    sym (value_from-digits (suc n) n (omega arith))
    ∙ ap (value_from 0) e
    ∙ value_from-digits (suc m) m (omega arith)

minus_no_digit : (n : ℕ) (s : Bytes) → decimal n ≡ b'-' ∷ s → ⊥
unfolding decimal
minus_no_digit n s e = ground (arith, all-digits (suc n) n, e)

-- Different integers are printed differently.
pub decimal_int-injective : (a b : ℤ) → decimal_int a ≡ decimal_int b → a ≡ b
unfolding decimal_int
decimal_int-injective (pos n) (pos m) e = ap pos (decimal-injective n m e)
decimal_int-injective (pos n) (negsuc m) e = absurd (minus_no_digit n (decimal (suc m)) e)
decimal_int-injective (negsuc n) (pos m) e = absurd (minus_no_digit m (decimal (suc n)) (sym e))
decimal_int-injective (negsuc n) (negsuc m) e =
    let same : decimal (suc n) ≡ decimal (suc m) = cc in
    ap negsuc (omega (arith, decimal-injective (suc n) (suc m) same))
