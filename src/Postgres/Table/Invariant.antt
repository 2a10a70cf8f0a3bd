-- ===== src/Postgres/Table/Invariant.antt =====
-- The constraints of the table: ids are drawn from the sequence, in order, and no email stands twice.
use crm_beginner.Base.{
  ℕ, ◌+◌, ◌<◌, ◌≤◌, ◌≡◌, ◌≢◌, refl, false, none, List, [], ◌∷◌, ◌++◌, any, All, All-append, arith,
  Bool-cases, inl, inr, Option-cases, ap, sym,
}
use crm_beginner.Base.Int.{ℤ, pos, pos_part, eq_ℤ, eq_ℤ_iff}
use crm_beginner.Domain.{Customer}
use crm_beginner.Postgres.Table.{
  Table, empty, find, taken_beside, insert_customer, changed, change, update_customer, remove,
  delete_customer,
}
use crm_beginner.Text.Search.{equal_iff}
use crm_beginner.Text.{Bytes, equal}

-- The ids rise from row to row and lie below `n`.
abbrev pub Serial : ℕ → List Customer → Type 0
Serial n [] = Unit
Serial n (r ∷ rows) =
    (r.id ≡ pos (pos_part r.id))
    × (pos_part r.id < n)
    × All (λ q. pos_part r.id < pos_part q.id) rows
    × Serial n rows

abbrev pub DistinctEmails : List Customer → Type 0
DistinctEmails [] = Unit
DistinctEmails (r ∷ rows) = All (λ q. q.email ≢ r.email) rows × DistinctEmails rows

pub record Inv (t : Table) : Type 0 where
  pub serial : Serial t.next_id t.rows
  pub distinct : DistinctEmails t.rows

pub Serial-mono : {n m : ℕ} (rows : List Customer) → n ≤ m → Serial n rows → Serial m rows
Serial-mono [] h s = tt
Serial-mono (r ∷ rows) h (a, b, c, s) = (a, omega arith, c, Serial-mono rows h s)

All-below :
    {n : ℕ} (k : ℕ) (rows : List Customer)
    → Serial n rows
    → n ≤ k
    → All (λ q. pos_part q.id < k) rows
All-below k [] s h = tt
All-below k (r ∷ rows) (a, b, c, s) h = (omega arith, All-below k rows s h)

Serial-append :
    (n : ℕ) (rows : List Customer) (r : Customer)
    → r.id ≡ pos n
    → Serial n rows
    → Serial (n + 1) (rows ++ r ∷ [])
Serial-append n [] r e s = ground arith
Serial-append n (q ∷ rows) r e (a, b, c, s) =
    (a, omega arith, All-append _ rows (r ∷ []) c (ground arith, tt), Serial-append n rows r e s)

not_taken :
    (email : Bytes) (rows : List Customer)
    → any (λ q. equal q.email email) rows ≡ false
    → All (λ q. email ≢ q.email) rows
not_taken email [] h = tt
not_taken email (q ∷ rows) h =
    ((λ e. ground (arith, equal_iff q.email email)), not_taken email rows (ground arith))

DistinctEmails-append :
    (rows : List Customer) (r : Customer)
    → All (λ q. r.email ≢ q.email) rows
    → DistinctEmails rows
    → DistinctEmails (rows ++ r ∷ [])
DistinctEmails-append [] r h d = (tt, tt)
DistinctEmails-append (q ∷ rows) r (h, hs) (d, ds) =
    (All-append _ rows (r ∷ []) d (h, tt), DistinctEmails-append rows r hs ds)

pub insert_customer-Inv :
    (now : ℕ) (name email : Bytes) (t : Table) → Inv t → Inv (insert_customer now name email t).1
unfolding insert_customer
insert_customer-Inv now name email t v = elim (Bool-cases (any (λ q. equal q.email email) t.rows)) [
  | inl e ↦
      rw e (record { serial = Serial-mono t.rows (omega arith) v.serial; distinct = v.distinct })
  | inr e ↦ rw e (record {
    serial = Serial-append t.next_id t.rows _ refl v.serial;
    distinct = DistinctEmails-append t.rows _ (not_taken email t.rows e) v.distinct;
  })
]

module _ (now : ℕ) (id : ℤ) (name email : Bytes) where
  All-above-change :
      (n : ℕ) (rows : List Customer)
      → All (λ q. n < pos_part q.id) rows
      → All (λ q. n < pos_part q.id) (change id (changed now name email) rows)
  unfolding change
  All-above-change n [] h = tt
  All-above-change n (q ∷ rows) (h, hs) = (ground arith, All-above-change n rows hs)

  Serial-change :
      (n : ℕ) (rows : List Customer)
      → Serial n rows
      → Serial n (change id (changed now name email) rows)
  unfolding change
  Serial-change n [] s = tt
  Serial-change n (r ∷ rows) (a, b, c, s) = elim (Bool-cases (eq_ℤ r.id id)) [
    | inl e ↦ rw e (a, b, All-above-change (pos_part r.id) rows c, Serial-change n rows s)
    | inr e ↦ rw e (a, b, All-above-change (pos_part r.id) rows c, Serial-change n rows s)
  ]

  All-ne-change :
      (x : Bytes) (rows : List Customer)
      → email ≢ x
      → All (λ q. q.email ≢ x) rows
      → All (λ q. q.email ≢ x) (change id (changed now name email) rows)
  unfolding change
  All-ne-change x [] ne h = tt
  All-ne-change x (q ∷ rows) ne (h, hs) = elim (Bool-cases (eq_ℤ q.id id)) [
    | inl e ↦ rw e (ne, All-ne-change x rows ne hs)
    | inr e ↦ rw e (h, All-ne-change x rows ne hs)
  ]

  -- Behind the row `id` there is no other row with that id, so nobody there holds the email.
  All-ne-behind :
      (rows : List Customer)
      → All (λ q. pos_part id < pos_part q.id) rows
      → taken_beside id email rows ≡ false
      → All (λ q. q.email ≢ email) (change id (changed now name email) rows)
  unfolding change taken_beside
  All-ne-behind [] h free = tt
  All-ne-behind (q ∷ rows) (h, hs) free = elim (Bool-cases (eq_ℤ q.id id)) [
    | inl e ↦ absurd (omega (arith, ap pos_part ((eq_ℤ_iff q.id id).0 e)))
    | inr e ↦
        rw e
          ((λ same. ground (arith, equal_iff q.email email)), All-ne-behind rows hs (ground arith))
  ]

  DistinctEmails-change :
      (n : ℕ) (rows : List Customer)
      → Serial n rows
      → taken_beside id email rows ≡ false
      → DistinctEmails rows
      → DistinctEmails (change id (changed now name email) rows)
  unfolding change taken_beside
  DistinctEmails-change n [] s free d = tt
  DistinctEmails-change n (r ∷ rows) (a, b, c, s) free (d, ds) = elim (Bool-cases (eq_ℤ r.id id)) [
    | inl e ↦ rw e (
      All-ne-behind rows (rw (sym ((eq_ℤ_iff r.id id).0 e)) c) (ground arith),
      DistinctEmails-change n rows s (ground arith) ds,
    )
    | inr e ↦ rw e (
      All-ne-change r.email rows (λ same. ground (arith, equal_iff r.email email)) d,
      DistinctEmails-change n rows s (ground arith) ds,
    )
  ]

  pub update_customer-Inv : (t : Table) → Inv t → Inv (update_customer now id name email t).1
  unfolding update_customer
  update_customer-Inv t v = elim (Option-cases (find id t.rows)) [
    | inl e ↦ rw (e, update_customer) v
    | inr (r, e) ↦ elim (Bool-cases (taken_beside id email t.rows)) [
      | inl f ↦ rw (e, update_customer) (rw f v)
      | inr f ↦
          rw (e, update_customer)
            (rw f (record {
              serial = Serial-change t.next_id t.rows v.serial;
              distinct = DistinctEmails-change t.next_id t.rows v.serial f v.distinct;
            }))
    ]
  ]

All-remove :
    (P : Customer → Type 0) (id : ℤ) (rows : List Customer) → All P rows → All P (remove id rows)
unfolding remove
All-remove P id [] h = tt
All-remove P id (r ∷ rows) (h, hs) = elim (Bool-cases (eq_ℤ r.id id)) [
  | inl e ↦ rw e (All-remove P id rows hs)
  | inr e ↦ rw e (h, All-remove P id rows hs)
]

Serial-remove : (n : ℕ) (id : ℤ) (rows : List Customer) → Serial n rows → Serial n (remove id rows)
unfolding remove
Serial-remove n id [] s = tt
Serial-remove n id (r ∷ rows) (a, b, c, s) = elim (Bool-cases (eq_ℤ r.id id)) [
  | inl e ↦ rw e (Serial-remove n id rows s)
  | inr e ↦ rw e (a, b, All-remove _ id rows c, Serial-remove n id rows s)
]

DistinctEmails-remove :
    (id : ℤ) (rows : List Customer) → DistinctEmails rows → DistinctEmails (remove id rows)
unfolding remove
DistinctEmails-remove id [] d = tt
DistinctEmails-remove id (r ∷ rows) (d, ds) = elim (Bool-cases (eq_ℤ r.id id)) [
  | inl e ↦ rw e (DistinctEmails-remove id rows ds)
  | inr e ↦ rw e (All-remove _ id rows d, DistinctEmails-remove id rows ds)
]

pub delete_customer-Inv : (id : ℤ) (t : Table) → Inv t → Inv (delete_customer id t).1
unfolding delete_customer
delete_customer-Inv id t v = record {
  serial = Serial-remove t.next_id id t.rows v.serial;
  distinct = DistinctEmails-remove id t.rows v.distinct;
}

pub empty-Inv : Inv empty
empty-Inv = record { serial = tt; distinct = tt }

find-above : (n : ℕ) (rows : List Customer) → Serial n rows → find (pos n) rows ≡ none
unfolding find
find-above n [] s = refl
find-above n (r ∷ rows) (a, b, c, s) = elim (Bool-cases (eq_ℤ r.id (pos n))) [
  | inl e ↦ absurd (omega (arith, ap pos_part ((eq_ℤ_iff r.id (pos n)).0 e)))
  | inr e ↦ rw e (find-above n rows s)
]

-- The next id of the sequence is no row's.
pub find-next_id : (t : Table) → Inv t → find (pos t.next_id) t.rows ≡ none
find-next_id t v = find-above t.next_id t.rows v.serial
