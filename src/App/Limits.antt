-- ===== src/App/Limits.antt =====
-- About internal/app/app.go and internal/adapter/postgres/pool.go: the limit of connections.
use crm_beginner.App.Orderly.{IsWhole, Builds, new-Builds}
use crm_beginner.App.{App, new}
use crm_beginner.Base.Int.{ℤ, pos, negsuc, pos_part}
use crm_beginner.Base.{◌≡◌, ◌<◌, ◌∙◌, ap, subst, some, ok, err, arith}
use crm_beginner.Config.Valid.{Positive, load-Valid}
use crm_beginner.Config.{Config, Environment, load}
use crm_beginner.Postgres.Pool.{limit, to_int32}
use crm_beginner.Resources.{Outside, Traced, nothing_held}

limit-to_int32 : (n : ℤ) → Positive n → pos_part n < 2_147_483_648 → limit (to_int32 n) ≡ some n
unfolding limit to_int32
limit-to_int32 (pos n) p h = ground arith
limit-to_int32 (negsuc n) p h = absurd (ground arith)

Builds-IsWhole :
    (cfg : Config) (t : Traced App) (a : App)
    → Builds cfg nothing_held t
    → t.0 ≡ ok a
    → IsWhole cfg a
Builds-IsWhole cfg (err e, actions) a v h = absurd cc
Builds-IsWhole cfg (ok b, actions) a v h = let same : b ≡ a = cc in subst (IsWhole cfg) same v.0

-- The pool of an app that `New` has built from what `Load` returned has the limit of connections that
-- was configured, if that is below 2 ^ 31, the first number that `int32` does not keep.
new-limit :
    (env : Environment) (out : Outside) (cfg : Config) (a : App)
    → load env ≡ ok cfg
    → pos_part cfg.db_max_conns < 2_147_483_648
    → (new out cfg).0 ≡ ok a
    → a.pool ≡ some (record { max_conns = some cfg.db_max_conns })
new-limit env out cfg a l small h =
    (Builds-IsWhole cfg (new out cfg) a (new-Builds out cfg) h).pool
    ∙ ap (λ m. some (record { max_conns = m }))
        (limit-to_int32 cfg.db_max_conns (load-Valid env cfg l).db_max_conns small)
