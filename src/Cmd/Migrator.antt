-- ===== src/Cmd/Migrator.antt =====
-- cmd/migrator/main.go with internal/migrate/migrate.go, over the answers of database/sql and goose. The
-- handle of database/sql is a pool. Logs are left out, and the pool has one connection.
pub mod Stopped
use gophprofile.Base.{ℕ, Option, none, some, List, [], ◌∷◌}
use gophprofile.Fault.{Error, Result, ok, err, wrap}
use gophprofile.Config.{Config}
use gophprofile.Lifecycle.{
  Act, opened, closed, signals, pool, Life, unless, after, deferred, passing,
}

-- NewProvider, and the versions that its Up has applied.
pub record Goose : Type 0 where
  pub provider : Option Error
  pub applied : Result (List ℕ)

pub record Answers : Type 0 where
  pub loaded : Result Config
  pub sql_opened : Option Error
  pub ping : Option Error
  pub goose : Goose
  pub db_closed : Option Error

abbrev applied : Result (List ℕ) → Life (List ℕ)
applied (ok versions) = (ok versions, [])
applied (err e) = (err (wrap e), [])

-- Up
unfoldable pub up : Goose → Life (List ℕ)
up g = unless g.provider [] (applied g.applied)

-- The deferred call of Close: its error counts where there is no other.
abbrev pub closing : Option Error → Life (Unit {0}) → Life (Unit {0})
closing o (err e, acts) = (err e, acts)
closing none (ok a, acts) = (ok a, acts)
closing (some e) (ok a, acts) = (err (wrap e), acts)

unfoldable pub run : Answers → Life (Unit {0})
unfolding up
run a =
    passing (a.loaded, [])
      λ cfg. after (opened signals ∷ []) (
        deferred (closed signals ∷ []) (
          unless a.sql_opened [] (
            after (opened pool ∷ []) (
              closing a.db_closed (
                deferred (closed pool ∷ [])
                  (unless a.ping [] (passing (up a.goose) λ versions. (ok tt, []))))))))
