-- ===== src/Postgres/Pool.antt =====
-- internal/adapter/postgres/pool.go: the pool of connections.
use crm_beginner.Base.Int.{ℤ, pos, negsuc, ltb_ℤ}
use crm_beginner.Base.{ℕ, ◌-◌, ◌%◌, Option, none, some, [], ◌∷◌, ltb, if◌then◌else◌, ok, err}
use crm_beginner.Domain.{wrap}
use crm_beginner.Resources.{Outside, Traced, opens_pool, closes_pool}
use crm_beginner.Text.{Bytes, bytes}

-- Two's complement in 32 bits.
abbrev signed_32 : ℕ → ℤ
signed_32 r = if ltb r 2_147_483_648 then pos r else negsuc (4_294_967_295 - r)

-- `int32(n)`.
unfoldable pub to_int32 : ℤ → ℤ
to_int32 (pos n) = signed_32 (n % 4_294_967_296)
to_int32 (negsuc n) = signed_32 (4_294_967_295 - n % 4_294_967_296)

-- A pool, with its limit of connections: `none` is the library's own.
pub record Pool : Type 0 where
  pub max_conns : Option ℤ

unfoldable pub limit : ℤ → Option ℤ
limit max_conns = if ltb_ℤ (pos 0) max_conns then some max_conns else none

-- `NewPool`.
unfoldable pub new_pool : Outside → Bytes → ℤ → Traced Pool
unfolding limit
new_pool out dsn max_conns = elim (out.parse_dsn dsn) [
  | some e ↦ (err (wrap (bytes "parse database url") e), [])
  | none ↦ elim out.create_pool [
    | some e ↦ (err (wrap (bytes "create connection pool") e), [])
    | none ↦ elim out.ping_pool [
      | some e ↦
          (err (wrap (bytes "ping database") e), opens_pool (limit max_conns) ∷ closes_pool ∷ [])
      | none ↦ (ok (record { max_conns = limit max_conns }), opens_pool (limit max_conns) ∷ [])
    ]
  ]
]
