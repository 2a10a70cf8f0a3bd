-- ===== src/Postgres.antt =====
-- internal/adapter/postgres: the repositories over the tables of db/migrations.
pub mod Table
pub mod Customers
pub mod Logs
pub mod Pool
