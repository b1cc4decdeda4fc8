-- ===== src/Cmd/Migrator/Stopped.antt =====
-- cmd/migrator/main.go: how the process ends.
use gophprofile.Base.{◌≡◌, refl, ℕ, Option, none, some, List, [], ◌∷◌}
use gophprofile.Fault.{Error, Result, ok, err, wrap, error_of}
use gophprofile.Config.{Config}
use gophprofile.Lifecycle.{open_after}
use gophprofile.Cmd.Migrator.{Answers, run, up}

-- The first error of a list of steps.
abbrev pub first_error : List (Option Error) → Result (Unit {0})
first_error [] = ok tt
first_error (none ∷ os) = first_error os
first_error (some e ∷ os) = err e

abbrev pub wrapped : Option Error → Option Error
wrapped none = none
wrapped (some e) = some (wrap e)

-- The steps of the migrator, each with its error.
abbrev pub steps : Answers → List (Option Error)
steps a =
    error_of a.loaded
    ∷ wrapped a.sql_opened
    ∷ wrapped a.ping
    ∷ wrapped a.goose.provider
    ∷ wrapped (error_of a.goose.applied)
    ∷ wrapped a.db_closed
    ∷ []

abbrev EndsWell : Answers → Type 0
EndsWell a = (open_after (run a).1 [] ≡ some []) × ((run a).0 ≡ first_error (steps a))

run-EndsWell :
    (c : Result Config) (o p g : Option Error) (r : Result (List ℕ)) (d : Option Error)
    → EndsWell (record {
      loaded = c;
      sql_opened = o;
      ping = p;
      goose = record { provider = g; applied = r };
      db_closed = d;
    })
unfolding run up open_after
run-EndsWell (err e) o p g r d = (refl, refl)
run-EndsWell (ok c) (some e) p g r d = (refl, refl)
run-EndsWell (ok c) none (some e) g r d = (refl, refl)
run-EndsWell (ok c) none none (some e) r d = (refl, refl)
run-EndsWell (ok c) none none none (err e) d = (refl, refl)
run-EndsWell (ok c) none none none (ok vs) none = (refl, refl)
run-EndsWell (ok c) none none none (ok vs) (some e) = (refl, refl)

-- However the migrator ends, the database that it has opened is closed, once, and its error is that of the
-- first step that failed, where closing is the last: a failure to close never stands for another.
pub migrator_run-first_error :
    (a : Answers) → (open_after (run a).1 [] ≡ some []) × ((run a).0 ≡ first_error (steps a))
migrator_run-first_error a =
    run-EndsWell a.loaded a.sql_opened a.ping a.goose.provider a.goose.applied a.db_closed
