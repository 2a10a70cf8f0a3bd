-- ===== src/Ingest/Finish.antt =====
-- About `Stop` of internal/ingest/ingester.go: that the workers can return.
use crm_beginner.Base.{
  ℕ, ◌+◌, ◌*◌, ◌≤◌, ◌<◌, ◌≡◌, ◌⊎◌, inl, inr, refl, ap, Bool, true, false, some, List, [], ◌∷◌, ◌++◌,
  if◌then◌else◌, ok, arith, length,
}
use crm_beginner.Domain.{LogEntry}
use crm_beginner.Ingest.{
  Config, Worker, collecting, inserting, waiting, exited, Shared, Act, receives, sees_close,
  elapses, inserts, enter_flush, add_to_batch, receive, see_close, after_insert, work, resume,
}
use crm_beginner.Postgres.Logs.{Context, LogTable, bulk_insert}
use crm_beginner.Remote.{up}

-- How many steps a worker is from the end, but for what is still queued.
abbrev pub weight : Worker → ℕ
weight (collecting batch) = 2
weight (inserting batch backoff last) = if last then 1 else 3
weight (waiting batch backoff last) = if last then 2 else 4
weight exited = 0

abbrev pub weights : List Worker → ℕ
weights [] = 0
weights (w ∷ ws) = weight w + weights ws

-- The database answers.
abbrev answered : Context
answered = record { now = 0; link = up }

-- A step that brings a worker, or the workers, nearer to the end.
pub record Nearer (cfg : Config) (w : Worker) (s : Shared) : Type 0 where
  pub act : Act
  pub w' : Worker
  pub s' : Shared
  pub happens : work cfg act w s ≡ some (w', s')
  pub nearer : 2 * length s'.queue + weight w' < 2 * length s.queue + weight w
  pub closed : s'.closed ≡ s.closed
  pub is_cancelled : s'.is_cancelled ≡ s.is_cancelled

weight-enter_flush :
    (batch : List LogEntry)
    → (weight (enter_flush batch true) ≤ 1) × (weight (enter_flush batch false) ≤ 3)
unfolding enter_flush
weight-enter_flush [] = (omega arith, omega arith)
weight-enter_flush (e ∷ batch) = (omega arith, omega arith)

weight-add_to_batch :
    (cfg : Config) (batch : List LogEntry) (e : LogEntry) → weight (add_to_batch cfg batch e) ≤ 3
unfolding add_to_batch
weight-add_to_batch cfg batch e = ground (arith, weight-enter_flush (batch ++ (e ∷ [])))

weight-resume : (last : Bool) → weight (resume last) < (if last then 1 else 3)
weight-resume true = omega arith
weight-resume false = omega arith

collecting-Nearer :
    (cfg : Config) (batch queue : List LogEntry) (s : Shared)
    → s.queue ≡ queue
    → s.closed ≡ true
    → Nearer cfg (collecting batch) s
unfolding work receive see_close
collecting-Nearer cfg batch [] s q c = record {
  act = sees_close;
  w' = enter_flush batch true;
  s' = s;
  happens = ground arith;
  nearer = omega (arith, (weight-enter_flush batch).0);
  closed = refl;
  is_cancelled = refl;
}
collecting-Nearer cfg batch (e ∷ rest) s q c = record {
  act = receives;
  w' = add_to_batch cfg batch e;
  s' = record s { queue = rest };
  happens = ap (λ x. receive cfg batch x s) q;
  nearer = omega (arith, weight-add_to_batch cfg batch e, ap length q);
  closed = refl;
  is_cancelled = refl;
}

bulk_insert-up : (batch : List LogEntry) (t : LogTable) → (bulk_insert answered batch t).0 ≡ ok tt
unfolding bulk_insert
bulk_insert-up [] t = refl
bulk_insert-up (e ∷ batch) t = refl

inserting-Nearer :
    (cfg : Config) (batch : List LogEntry) (backoff : ℕ) (last : Bool) (s : Shared)
    → Nearer cfg (inserting batch backoff last) s
unfolding work after_insert
inserting-Nearer cfg batch backoff last s =
    let r = bulk_insert answered batch s.table in
    record {
      act = inserts answered;
      w' = resume last;
      s' = record s { table = r.1 };
      happens =
          ap (λ x. some (after_insert batch backoff last s (x, r.1)))
            (bulk_insert-up batch s.table);
      nearer = omega (arith, weight-resume last);
      closed = refl;
      is_cancelled = refl;
    }

waiting-Nearer :
    (cfg : Config) (batch : List LogEntry) (backoff : ℕ) (last : Bool) (s : Shared)
    → Nearer cfg (waiting batch backoff last) s
unfolding work
waiting-Nearer cfg batch backoff last s = record {
  act = elapses;
  w' = inserting batch _ last;
  s' = s;
  happens = refl;
  nearer = ground arith;
  closed = refl;
  is_cancelled = refl;
}

pub work-Nearer :
    (cfg : Config) (w : Worker) (s : Shared) → s.closed ≡ true → (w ≡ exited) ⊎ Nearer cfg w s
work-Nearer cfg (collecting batch) s c = inr (collecting-Nearer cfg batch s.queue s refl c)
work-Nearer cfg (inserting batch backoff last) s c = inr (inserting-Nearer cfg batch backoff last s)
work-Nearer cfg (waiting batch backoff last) s c = inr (waiting-Nearer cfg batch backoff last s)
work-Nearer cfg exited s c = inl refl
