-- ===== src/Ingest/Moves.antt =====
-- About `worker` and `flush` of internal/ingest/ingester.go: when a worker may leave its loop.
use mathlib.Core.Option
use crm_beginner.Base.{
  ℕ, zero, suc, ◌≡◌, ◌⊎◌, refl, ap, Bool, true, false, Option, none, some, List, [], ◌∷◌, ◌++◌,
  Result, ok, err, arith, length, Bool-cases, inl, inr, All,
}
use mathlib.Core.Option.{some-injective}
use crm_beginner.Domain.{LogEntry, Error}
use crm_beginner.Ingest.{
  Config, Worker, collecting, inserting, waiting, exited, Shared, Act, receives, sees_close, ticks,
  sees_cancel, elapses, gives_up, inserts, enter_flush, add_to_batch, receive, see_close,
  after_insert, work, work_at,
}
use crm_beginner.Postgres.Logs.{LogTable, bulk_insert}

-- The worker has left its loop, or will when its flush ends.
abbrev pub is_last : Worker → Bool
is_last (collecting batch) = false
is_last (inserting batch backoff last) = last
is_last (waiting batch backoff last) = last
is_last exited = true

-- A worker may leave: the context has ended, or the channel is closed and drained.
abbrev pub MayLeave : Shared → Type 0
MayLeave s = (s.is_cancelled ≡ true) ⊎ ((s.closed ≡ true) × (s.queue ≡ []))

abbrev pub Leaves : Shared → Worker → Type 0
Leaves s w = is_last w ≡ true → MayLeave s

abbrev pub NothingGivenUp : Shared → Type 0
NothingGivenUp s = (s.is_cancelled ≡ true) ⊎ (s.given_up ≡ [])

-- What a step keeps.
abbrev Moves : Worker → Shared → Option (Worker × Shared) → Type 0
Moves w s none = Unit
Moves w s (some (w', s')) =
    (MayLeave s → MayLeave s')
    × (Leaves s w → Leaves s' w')
    × (NothingGivenUp s → NothingGivenUp s')

is_last-enter_flush :
    (batch : List LogEntry) (last : Bool) → is_last (enter_flush batch last) ≡ last
unfolding enter_flush
is_last-enter_flush [] true = refl
is_last-enter_flush [] false = refl
is_last-enter_flush (e ∷ batch) last = refl

is_last-add_to_batch :
    (cfg : Config) (batch : List LogEntry) (e : LogEntry)
    → is_last (add_to_batch cfg batch e) ≡ false
unfolding add_to_batch
is_last-add_to_batch cfg batch e = ground (arith, is_last-enter_flush (batch ++ e ∷ []) false)

receive-Moves :
    (cfg : Config) (batch queue : List LogEntry) (s : Shared)
    → s.queue ≡ queue
    → Moves (collecting batch) s (receive cfg batch queue s)
unfolding receive
receive-Moves cfg batch [] s q = tt
receive-Moves cfg batch (e ∷ rest) s q =
    (λ m. ground arith, λ l h. absurd (ground (arith, is_last-add_to_batch cfg batch e)), λ g. g)

see_close-Moves :
    (batch queue : List LogEntry) (s : Shared)
    → s.queue ≡ queue
    → Moves (collecting batch) s (see_close batch queue s)
unfolding see_close
see_close-Moves batch (e ∷ rest) s q = tt
see_close-Moves batch [] s q = elim (Bool-cases s.closed) [
  | inl e ↦ rw e (λ m. m, λ l h. inr (refl, q), λ g. g)
  | inr e ↦ rw e tt
]

after_insert-Moves :
    (batch : List LogEntry) (backoff : ℕ) (last : Bool) (s : Shared)
    (r : Result Error (Unit {0}) × LogTable)
    → Moves (inserting batch backoff last) s (some (after_insert batch backoff last s r))
unfolding after_insert
after_insert-Moves batch backoff true s (ok u, t) = (λ m. m, λ l h. l refl, λ g. g)
after_insert-Moves batch backoff false s (ok u, t) = (λ m. m, λ l h. absurd cc, λ g. g)
after_insert-Moves batch backoff last s (err e, t) = (λ m. m, λ l h. l h, λ g. g)

work-Moves : (cfg : Config) (act : Act) (w : Worker) (s : Shared) → Moves w s (work cfg act w s)
unfolding work
work-Moves cfg receives (collecting batch) s = receive-Moves cfg batch s.queue s refl
work-Moves cfg sees_close (collecting batch) s = see_close-Moves batch s.queue s refl
work-Moves cfg ticks (collecting batch) s =
    (λ m. m, λ l h. absurd (ground (arith, is_last-enter_flush batch false)), λ g. g)
work-Moves cfg sees_cancel (collecting batch) s = elim (Bool-cases s.is_cancelled) [
  | inl e ↦ rw e (λ m. m, λ l h. inl refl, λ g. g)
  | inr e ↦ rw e tt
]
work-Moves cfg (inserts ctx) (inserting batch backoff last) s =
    after_insert-Moves batch backoff last s (bulk_insert ctx batch s.table)
work-Moves cfg elapses (waiting batch backoff last) s = (λ m. m, λ l h. l h, λ g. g)
work-Moves cfg gives_up (waiting batch backoff last) s = elim (Bool-cases s.is_cancelled) [
  | inl e ↦ rw e (λ m. inl refl, λ l h. inl refl, λ g. inl refl)
  | inr e ↦ rw e tt
]
work-Moves cfg _ _ s = tt

-- The same for the list of workers.
abbrev pub MovesAll : List Worker → Shared → Option (List Worker × Shared) → Type 0
MovesAll ws s none = Unit
MovesAll ws s (some (ws', s')) =
    (MayLeave s → MayLeave s')
    × (All (Leaves s) ws → All (Leaves s') ws')
    × (NothingGivenUp s → NothingGivenUp s')
    × (length ws' ≡ length ws)

pub All-Leaves :
    (s s' : Shared) (ws : List Worker)
    → (MayLeave s → MayLeave s')
    → All (Leaves s) ws
    → All (Leaves s') ws
All-Leaves s s' [] m a = tt
All-Leaves s s' (w ∷ ws) m (h, a) = ((λ l. m (h l)), All-Leaves s s' ws m a)

here-MovesAll :
    (w : Worker) (ws : List Worker) (s : Shared) (o : Option (Worker × Shared))
    → Moves w s o
    → MovesAll (w ∷ ws) s (Option.map (λ r. (r.0 ∷ ws, r.1)) o)
here-MovesAll w ws s none m = tt
here-MovesAll w ws s (some (w', s')) (m, l, g) =
    (m, λ a. (l a.0, All-Leaves s s' ws m a.1), g, refl)

there-MovesAll :
    (w : Worker) (ws : List Worker) (s : Shared) (o : Option (List Worker × Shared))
    → MovesAll ws s o
    → MovesAll (w ∷ ws) s (Option.map (λ r. (w ∷ r.0, r.1)) o)
there-MovesAll w ws s none m = tt
there-MovesAll w ws s (some (ws', s')) (m, l, g, n) =
    (m, λ a. ((λ h. m (a.0 h)), l a.1), g, ap suc n)

pub work_at-MovesAll :
    (cfg : Config) (i : ℕ) (act : Act) (ws : List Worker) (s : Shared)
    → MovesAll ws s (work_at cfg i act ws s)
unfolding work_at
work_at-MovesAll cfg i act [] s = tt
work_at-MovesAll cfg zero act (w ∷ ws) s =
    here-MovesAll w ws s (work cfg act w s) (work-Moves cfg act w s)
work_at-MovesAll cfg (suc i) act (w ∷ ws) s =
    there-MovesAll w ws s (work_at cfg i act ws s) (work_at-MovesAll cfg i act ws s)
