-- ===== src/Worker/Reconciler/Safety.antt =====
-- What a pass does to the table and to the history of events.
use gophprofile.Base.{ℕ, [], ◌∷◌}
use gophprofile.Domain.Avatar.{Avatar}
use gophprofile.World.{Event, World, St}
use gophprofile.World.Keeps.{Rely, Keeps, keeps_rules}
use gophprofile.Broker.Evolution.{publication_rules}
use gophprofile.Postgres
use gophprofile.Postgres.Evolution.{Evolution, Evolution-preorder}
use gophprofile.Postgres.Methods.{repository_rules}
use gophprofile.Worker.Reconciler.{
  Config, read_clock, upload_event_of, cleanup_event_of, republish, republish_uploads,
  republish_cleanups, reconcile,
}

ruleset call_rules = (keeps_rules, repository_rules, publication_rules)

republish-Keeps :
    (event_of : Avatar → St Event)
    → ((a : Avatar) → Keeps Evolution (event_of a))
    → (rows : Postgres.Rows) (n : ℕ) → Keeps Evolution (republish event_of rows n)
unfolding republish
republish-Keeps event_of h [] n = search keeps_rules
republish-Keeps event_of h (r ∷ rows) n =
    let more = republish-Keeps event_of h rows in search (call_rules, h, more) depth 8

republish_uploads-Keeps : (batch before : ℕ) → Keeps Evolution (republish_uploads batch before)
unfolding republish_uploads
republish_uploads-Keeps batch before =
    let looped = republish-Keeps upload_event_of (λ a. search call_rules) in
    search (call_rules, looped)

republish_cleanups-Keeps : (batch before : ℕ) → Keeps Evolution (republish_cleanups batch before)
unfolding republish_cleanups
republish_cleanups-Keeps batch before =
    let looped = republish-Keeps cleanup_event_of (λ a. search call_rules) in
    search (call_rules, looped)

read_clock-Keeps : Keeps Evolution read_clock
read_clock-Keeps = record { at = λ w h. (Evolution-preorder.rfl w.shared, h) }

reconcile-Keeps : (cfg : Config) → Keeps Evolution (reconcile cfg)
unfolding reconcile
reconcile-Keeps cfg =
    search (call_rules, read_clock-Keeps, republish_uploads-Keeps, republish_cleanups-Keeps) depth 8

-- A pass of the reconciler takes what is shared along an evolution, whatever fails in it and whatever
-- other processes do along one: no line is lost, and no upload that has ended, processing that has
-- ended, deletion or removal is undone by it.
pub reconcile-Evolution :
    (cfg : Config) (w : World)
    → Rely Evolution w.script
    → Evolution w.shared (reconcile cfg w).1.shared
reconcile-Evolution cfg w rely = ((reconcile-Keeps cfg).at w rely).0
