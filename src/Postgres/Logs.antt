-- ===== src/Postgres/Logs.antt =====
-- internal/adapter/postgres/log_repository.go: the repository of logs, over the table `logs` of
-- db/migrations/0003_create_logs.sql.
use crm_beginner.Base.{ℕ, List, [], ◌∷◌, ◌++◌, map, Result, ok, err}
use crm_beginner.Domain.Ports.{LogRepository}
use crm_beginner.Domain.{LogEntry, Error, wrap}
use crm_beginner.Remote.{Link, exec}
use crm_beginner.Text.{Bytes, bytes}

-- The columns that an insert gives.
pub record Columns : Type 0 where
  pub level : Bytes
  pub message : Bytes
  pub service : Bytes
  pub occurred_at : ℕ

pub record LogRow : Type 0 where
  pub columns : Columns
  pub created_at : ℕ

abbrev pub LogTable : Type 0
LogTable = List LogRow

abbrev pub columns_of : LogEntry → Columns
columns_of e = record {
  level = e.level;
  message = e.message;
  service = e.service;
  occurred_at = e.occurred_at;
}

-- COPY: all rows or none, each with the time of the insert.
abbrev pub copy_from : ℕ → List Columns → LogTable → Result Error (Unit {0}) × LogTable
copy_from now rows t = (ok tt, t ++ map (λ c. record { columns = c; created_at = now }) rows)

insert_result : Result Error (Unit {0}) → Result Error (Unit {0})
insert_result (ok u) = ok tt
insert_result (err e) = err (wrap (bytes "bulk insert logs") e)

-- What one call meets: the time of the server, and its connection.
pub record Context : Type 0 where
  pub now : ℕ
  pub link : Link

-- `BulkInsert`.
unfoldable pub bulk_insert : Context → List LogEntry → LogTable → Result Error (Unit {0}) × LogTable
unfolding insert_result
bulk_insert ctx [] t = (ok tt, t)
bulk_insert ctx (e ∷ entries) t =
    let r = exec ctx.link (copy_from ctx.now (map columns_of (e ∷ entries))) t in
    (insert_result r.0, r.1)

unfoldable pub repository : LogRepository Context LogTable
unfolding bulk_insert
repository = record { bulk_insert = bulk_insert }
