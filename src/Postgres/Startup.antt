-- ===== src/Postgres/Startup.antt =====
-- New, Close and Ping of internal/repository/postgres/postgres.go, over the answers of pgxpool: to
-- ParseConfig, to NewWithConfig and to the first Ping.
use gophprofile.Base.{
  ℕ, ◌≡◌, Bool, false, Option, none, some, List, [], ◌∷◌, ℤ, pos, negsuc, IsBetween, arith, ltb,
  ◌-◌, ◌%◌, if◌then◌else◌, ◌||◌, not, leq,
}
use gophprofile.Fault.{Error, ok, err, wrap, foreign}
use gophprofile.Config.{Db}
use gophprofile.Config.Defaults.{Duration}
use gophprofile.Lifecycle.{Act, opened, closed, pool, Life, unless, after}

pub record Pgx : Type 0 where
  pub parsed : Option Error
  pub connected : Option Error
  pub pinged : Option Error

pub record Repository : Type 0 where
  pub max_conns : ℤ  -- of the pool, an int32
  pub query_timeout : Duration

abbrev pub max_int32 : ℕ
max_int32 = 2147483647

-- The conversion int32(cfg.MaxConns), which keeps the low 32 bits.
unfoldable pub int32_of : ℤ → ℤ
int32_of (pos n) =
    let low = n % 4294967296 in if ltb low 2147483648 then pos low else negsuc (4294967295 - low)
int32_of (negsuc n) =
    let low = n % 4294967296 in if ltb low 2147483648 then negsuc low else pos (4294967295 - low)

-- cfg.MaxConns <= 0 || cfg.MaxConns > math.MaxInt32
abbrev out_of_range : ℤ → Bool
out_of_range n = leq n (pos 0) || not (leq n (pos max_int32))

-- pool.Close waits for the connections that are in use.
abbrev pub close : List Act
close = closed pool ∷ []

unfoldable pub new : Db → Pgx → Life Repository
unfolding int32_of
new cfg pgx = unless pgx.parsed [] (
    if out_of_range cfg.max_conns
    then (err (foreign 0), [])
    else unless pgx.connected [] (
        after (opened pool ∷ []) (
          unless pgx.pinged close (
            ok (record { max_conns = int32_of cfg.max_conns; query_timeout = cfg.query_timeout }),
            [],
          ))))

-- Ping, over the answer to its query, which fails where the table is not there.
unfoldable pub ping : Option Error → Option Error
ping none = none
ping (some e) = some (wrap e)

int32_of-IsBetween : (n : ℤ) → out_of_range n ≡ false → (int32_of n ≡ n) × IsBetween 1 max_int32 n
unfolding int32_of
int32_of-IsBetween (pos n) h = ground arith
int32_of-IsBetween (negsuc n) h = ground arith

-- A repository that was made has a pool of the size that was asked for: it is positive and fits 32
-- bits, so that the conversion has not changed it.
pub new-IsBetween :
    (cfg : Db) (pgx : Pgx) (r : Repository)
    → (new cfg pgx).0 ≡ ok r
    → (r.max_conns ≡ cfg.max_conns) × IsBetween 1 max_int32 cfg.max_conns
unfolding new
new-IsBetween cfg pgx r h = ground (arith, int32_of-IsBetween cfg.max_conns)
