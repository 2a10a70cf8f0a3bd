-- ===== src/LogAgent/Shipper/Delivery.antt =====
-- About `flush` and `commit` of internal/logagent/shipper.go: receipts and positions.
use crm_beginner.Base.{
  ℕ, ◌+◌, ◌≡◌, ◌⊎◌, inl, inr, refl, Bool, true, false, Option, none, some, List, [], ◌∷◌,
  if◌then◌else◌, length, ok, err, arith, Bool-cases,
}
use crm_beginner.LogAgent.Positions.{Position, Saved, get, set, Codec, Saving}
use crm_beginner.LogAgent.Shipper.{
  Call, not_opened, breaks, unanswered, summary, send, send_failure, Shipper, record_all, commit,
  Attempt, is_receipt, next_backoff, flush_from, flush, initial_retry_backoff,
}
use crm_beginner.Domain.{Error}
use crm_beginner.LogAgent.Tailer.{Entry}
use crm_beginner.Text.Dict.{lookup-insert}
use crm_beginner.Text.{Bytes, equal}

-- The position of the last entry of a batch from a file, if it has one.
abbrev pub last_position : Bytes → List Entry → Option Position
last_position file [] = none
last_position file (e ∷ batch) = elim (last_position file batch) [
  | some pos ↦ some pos
  | none ↦ if equal e.file file then some (record { inode = e.inode; offset = e.offset }) else none
]

abbrev pub or_old : Option Position → Option Position → Option Position
or_old (some pos) old = some pos
or_old none old = old

get-record_all :
    (file : Bytes) (batch : List Entry) (m : Saved)
    → get file (record_all batch m) ≡ or_old (last_position file batch) (get file m)
unfolding record_all get set
get-record_all file [] m = refl
get-record_all file (e ∷ batch) m = ground (
  arith,
  get-record_all file batch (set e.file (record { inode = e.inode; offset = e.offset }) m),
  lookup-insert e.file file (record { inode = e.inode; offset = e.offset }) m,
)

-- Whether one of the attempts gets a receipt, before the context ends.
abbrev pub gets_receipt : List Attempt → Bool
gets_receipt [] = false
gets_receipt (a ∷ attempts) =
    let rest = gets_receipt attempts in
    if is_receipt a.call then true else (if a.ctx_done then false else rest)

pub send-receipt :
    (c : Call) (batch : List Entry)
    → ((is_receipt c ≡ true) × (n : ℕ) × ((send c batch).1 ≡ ok n))
      ⊎ ((is_receipt c ≡ false) × (e : Error) × ((send c batch).1 ≡ err e))
unfolding send
send-receipt (not_opened e) batch = inr (refl, e, refl)
send-receipt (breaks n e close_error) batch = inr (refl, send_failure e close_error, refl)
send-receipt (unanswered e) batch = inr (refl, e, refl)
send-receipt (summary n) batch = inl (refl, n, refl)

abbrev pub Recorded : Bool → Bytes → List Entry → Shipper → Shipper → Type 0
Recorded true file batch s s' =
    (get file s'.positions ≡ or_old (last_position file batch) (get file s.positions))
    × (s'.shipped ≡ s.shipped + length batch)
Recorded false file batch s s' = s' ≡ s

pub commit-Recorded :
    (codec : Codec) (saving : Saving) (file : Bytes) (batch : List Entry) (s : Shipper)
    → Recorded true file batch s (commit codec saving batch s)
unfolding commit
commit-Recorded codec saving file batch s = (get-record_all file batch s.positions, refl)

flush_from-Recorded :
    (codec : Codec) (backoff : ℕ) (attempts : List Attempt) (file : Bytes) (batch : List Entry)
    (s : Shipper)
    → Recorded (gets_receipt attempts) file batch s (flush_from codec backoff attempts batch s).1
unfolding flush_from
flush_from-Recorded codec backoff [] file batch s = refl
flush_from-Recorded codec backoff (a ∷ attempts) file batch s = elim (send-receipt a.call batch) [
  | inl (r, n, h) ↦ rw (flush_from, r, h) (commit-Recorded codec a.saving file batch s)
  | inr (r, e, h) ↦ elim (Bool-cases a.ctx_done) [
    | inl d ↦ rw (flush_from, r, h, d) refl
    | inr d ↦
        rw (flush_from, r, h, d)
          (flush_from-Recorded codec (next_backoff backoff) attempts file batch s)
  ]
]

-- If no attempt of a flush ends with the server's summary before the context ends, the shipper is
-- as before. If one does, the position of every file is that of the last entry of the batch read
-- from it, or the old one where there is none, and the whole batch is counted as shipped.
pub flush-Recorded :
    (codec : Codec) (attempts : List Attempt) (file : Bytes) (batch : List Entry) (s : Shipper)
    → Recorded (gets_receipt attempts) file batch s (flush codec attempts batch s).1
unfolding flush
flush-Recorded codec attempts file batch s =
    flush_from-Recorded codec initial_retry_backoff attempts file batch s
