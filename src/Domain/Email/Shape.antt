-- ===== src/Domain/Email/Shape.antt =====
-- About internal/domain/email.go: the shape of an address.
use crm_beginner.Base.{
  ℕ, suc, ◌≡◌, ◌≢◌, ◌⊎◌, inl, inr, refl, Bool, true, ◌&&◌, not, [], ◌∷◌, ◌++◌, none, some, all,
  ◌==◌, length, ok, err, Result-cases, arith, ap, ◌∙◌, Option-cases, Bool-cases, ◌+◌, ◌<◌,
  length-append,
}
use crm_beginner.Domain.Email.{Email, check_address, new_email}
use crm_beginner.Domain.{Error, sentinel, invalid_email}
use crm_beginner.Text.{Bytes, bytes, index_byte, contains_any, trim_space, to_lower}

-- No '@' before the first one, something on both sides, and no blank or tab.
pub record IsAddress (v : Bytes) : Type 0 where
  pub local : Bytes
  pub domain : Bytes
  pub split : v ≡ local ++ (b'@' ∷ domain)
  pub local_ne_nil : local ≢ []
  pub domain_ne_nil : domain ≢ []
  pub first_at : all (λ c. not (c == b'@')) local ≡ true
  pub no_blank : all (λ c. not (c == b' ') && not (c == b'\t')) v ≡ true

abbrev not_at : ℕ → Bool
not_at c = not (c == b'@')

abbrev not_blank : ℕ → Bool
not_blank c = not (c == b' ') && not (c == b'\t')

index_byte-none : (v : Bytes) → index_byte v b'@' ≡ none → all not_at v ≡ true
unfolding index_byte
index_byte-none [] h = refl
index_byte-none (c ∷ v) h = ground (arith, index_byte-none v)

index_byte-some :
    (v : Bytes) (i : ℕ)
    → index_byte v b'@' ≡ some i
    → (local domain : Bytes) × (v ≡ local ++ (b'@' ∷ domain))
      × (length local ≡ i)
      × (all not_at local ≡ true)
unfolding index_byte
index_byte-some [] i h = cc
index_byte-some (c ∷ v) i h = elim (Bool-cases (c == b'@')) [
  | inl e ↦ ([], v, ground arith, ground arith, refl)
  | inr e ↦ elim (Option-cases (index_byte v b'@')) [
    | inl n ↦ absurd (ground arith)
    | inr (j, n) ↦
        let (local, domain, split, len, clean) = index_byte-some v j n in
        (c ∷ local, domain, ap (◌∷◌ c) split, ground arith, ground arith)
  ]
]

index_byte-split :
    (local domain : Bytes)
    → all not_at local ≡ true
    → index_byte (local ++ (b'@' ∷ domain)) b'@' ≡ some (length local)
unfolding index_byte
index_byte-split [] domain h = refl
index_byte-split (c ∷ local) domain h = ground (arith, index_byte-split local domain)

contains_any-blank : (v : Bytes) → contains_any v (bytes " \t") ≡ not (all not_blank v)
unfolding contains_any
contains_any-blank [] = refl
contains_any-blank (c ∷ v) = ground (arith, contains_any-blank v)

length-pos : (s : Bytes) → s ≢ [] → 0 < length s
length-pos [] h = absurd (h refl)
length-pos (c ∷ s) h = omega arith

ne_nil : (s : Bytes) → 0 < length s → s ≢ []
ne_nil s h e = omega (arith, ap length e)

check_address-accepts : (v : Bytes) → IsAddress v → check_address v ≡ ok (record { value = v })
unfolding check_address
check_address-accepts [] a = absurd (omega (arith, ap length a.split, length-append a.local _))
check_address-accepts (c ∷ v) a =
    let found : index_byte (c ∷ v) b'@' ≡ some (length a.local) =
      rw a.split (index_byte-split a.local a.domain a.first_at) in
    let long : length (c ∷ v) ≡ length a.local + suc (length a.domain) =
      ap length a.split ∙ length-append a.local (b'@' ∷ a.domain) in
    ground (
      arith,
      found,
      long,
      length-pos a.local a.local_ne_nil,
      length-pos a.domain a.domain_ne_nil,
      contains_any-blank (c ∷ v),
      a.no_blank,
    )

check_address-IsAddress : (v : Bytes) {e : Email} → check_address v ≡ ok e → IsAddress v
unfolding check_address
check_address-IsAddress v h = elim (Option-cases (index_byte v b'@')) [
  | inl n ↦ absurd (ground arith)
  | inr (i, n) ↦
      let (local, domain, split, len, clean) = index_byte-some v i n in
      let long : length v ≡ length local + suc (length domain) =
        ap length split ∙ length-append local (b'@' ∷ domain) in
      record {
        local = local;
        domain = domain;
        split = split;
        local_ne_nil = ne_nil local (ground arith);
        domain_ne_nil = ne_nil domain (ground arith);
        first_at = clean;
        no_blank = ground (arith, contains_any-blank v);
      }
]

check_address-fails : (v : Bytes) (e : Error) → check_address v ≡ err e → e ≡ sentinel invalid_email
unfolding check_address
check_address-fails v e h = ground arith

pub new_email-error :
    (map_lower : Bytes → Bytes) (raw : Bytes) (e : Error)
    → new_email map_lower raw ≡ err e
    → e ≡ sentinel invalid_email
unfolding new_email
new_email-error map_lower raw e h = check_address-fails (to_lower map_lower (trim_space raw)) e h

-- `NewEmail` accepts a text exactly if, trimmed and in lower case, it has the shape of an address,
-- and its value is then that trimmed text in lower case; it fails with `ErrInvalidEmail` otherwise.
pub new_email-exact :
    (map_lower : Bytes → Bytes) (raw : Bytes)
    → let v = to_lower map_lower (trim_space raw) in
      (IsAddress v × (new_email map_lower raw ≡ ok (record { value = v })))
      ⊎ (¬ IsAddress v × (new_email map_lower raw ≡ err (sentinel invalid_email)))
unfolding new_email
new_email-exact map_lower raw =
    let v = to_lower map_lower (trim_space raw) in
    elim (Result-cases (check_address v)) [
      | inl (e, h) ↦ let a = check_address-IsAddress v h in inl (a, check_address-accepts v a)
      | inr (e, h) ↦
          inr (λ a. cc (check_address-accepts v a, h), h ∙ ap err (check_address-fails v e h))
    ]
