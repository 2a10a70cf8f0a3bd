-- ===== src/LogAgent/Shipper/Loop/Flushes.antt =====
-- About `flush` and `final` of internal/logagent/shipper.go: what they leave in the positions.
use crm_beginner.Base.{
  ℕ, ◌≡◌, inl, inr, refl, Bool, true, Option, none, some, List, [], ◌∷◌, ◌++◌, if◌then◌else◌, arith,
  Bool-cases,
}
use crm_beginner.LogAgent.Positions.{Position, Saved, get, retain, Codec, Saving}
use crm_beginner.LogAgent.Shipper.Delivery.{last_position, or_old, commit-Recorded, send-receipt}
use crm_beginner.LogAgent.Shipper.{
  Shipper, Call, Attempt, Flushed, delivered, abandoned, retrying, is_receipt, flush_from, final,
  next_backoff,
}
use crm_beginner.LogAgent.Tailer.{Entry}
use crm_beginner.Text.Search.{equal_iff}
use crm_beginner.Text.Dict.{keep_only, lookup}
use crm_beginner.Text.{Bytes}

-- How a flush ends, and what it leaves.
abbrev pub Ends : Bytes → List Entry → Shipper → Flushed × Shipper → Type 0
Ends file batch s (delivered, s') =
    get file s'.positions ≡ or_old (last_position file batch) (get file s.positions)
Ends file batch s (abandoned, s') = s' ≡ s
Ends file batch s (retrying backoff, s') = Unit

pub flush_from-Ends :
    (codec : Codec) (backoff : ℕ) (attempts : List Attempt) (file : Bytes) (batch : List Entry)
    (s : Shipper)
    → Ends file batch s (flush_from codec backoff attempts batch s)
unfolding flush_from
flush_from-Ends codec backoff [] file batch s = tt
flush_from-Ends codec backoff (a ∷ attempts) file batch s = elim (send-receipt a.call batch) [
  | inl (r, n, h) ↦ rw (flush_from, h) (commit-Recorded codec a.saving file batch s).0
  | inr (r, e, h) ↦ elim (Bool-cases a.ctx_done) [
    | inl d ↦ rw (flush_from, h, d) refl
    | inr d ↦
        rw (flush_from, h, d) (flush_from-Ends codec (next_backoff backoff) attempts file batch s)
  ]
]

pub final-Recorded :
    (codec : Codec) (call : Call) (saving : Saving) (file : Bytes) (batch : List Entry)
    (s : Shipper)
    → get file (final codec call saving batch s).positions ≡ (
        if is_receipt call
        then or_old (last_position file batch) (get file s.positions)
        else get file s.positions)
unfolding final
final-Recorded codec call saving file [] s = ground arith
final-Recorded codec call saving file (e ∷ batch) s = elim (send-receipt call (e ∷ batch)) [
  | inl (r, n, h) ↦ rw (final, r, h) (commit-Recorded codec saving file (e ∷ batch) s).0
  | inr (r, f, h) ↦ rw (final, r, h) refl
]

pub last_position-append :
    (file : Bytes) (xs ys : List Entry)
    → last_position file (xs ++ ys) ≡ or_old (last_position file ys) (last_position file xs)
last_position-append file [] ys = ground arith
last_position-append file (x ∷ xs) ys = ground (arith, last_position-append file xs ys)

pub or_old_assoc : (a b c : Option Position) → or_old a (or_old b c) ≡ or_old (or_old a b) c
or_old_assoc (some a) b c = refl
or_old_assoc none b c = refl

pub lookup-keep_only :
    (keep : Bytes → Bool) (file : Bytes) (m : Saved)
    → keep file ≡ true
    → lookup file (keep_only keep m) ≡ lookup file m
unfolding lookup keep_only
lookup-keep_only keep file [] h = refl
lookup-keep_only keep file ((k, v) ∷ m) h =
    ground (arith, equal_iff k file, lookup-keep_only keep file m)

pub get-retain :
    (keep : Bytes → Bool) (file : Bytes) (m : Saved)
    → keep file ≡ true
    → get file (retain keep m) ≡ get file m
unfolding get retain
get-retain keep file m h = lookup-keep_only keep file m h
