-- ===== src/Tests/Router.antt =====
-- The theorems on the router of internal/server/http at one configuration.
use gophprofile.Base.{
  ◌≡◌, ◌≤◌, ◌<◌, ◌+◌, ◌↔◌, refl, All, true, false, [], ◌∷◌, pos, is_negative, count_if, arith,
}
use gophprofile.Server.Http.Routes.{Deps, Method, routes, get, body_limit, matches}
use gophprofile.Server.Http.Routes.Guarded.{IsGuarded, routes-IsGuarded, body_limit_iff}
use gophprofile.Server.Http.Routes.Apart.{serves, routes-count_if}
use gophprofile.Tests.Config.{defaults}

abbrev deps : Deps
deps = record {
  http = defaults.http;
  rate_limit = defaults.rate_limit;
  max_upload_bytes = pos 10485760;
  web = true;
  tracing = false;
  metrics = true;
  metrics_handler = true;
}

-- The page of a user is served by one route, and a path that is not in the table by none.
served :
    (count_if (serves get ("web" ∷ "gallery" ∷ "ann" ∷ [])) (routes deps) ≡ 1)
    × (count_if (serves get ("web" ∷ "gallery" ∷ [])) (routes deps) ≡ 0)
    × (count_if (serves Method.delete ("health" ∷ [])) (routes deps) ≡ 0)
unfolding routes matches
served = (refl, refl, refl)

routes-IsGuarded_example : All (IsGuarded deps) (routes deps)
routes-IsGuarded_example = routes-IsGuarded deps

routes-count_if_example : count_if (serves get ("web" ∷ "upload" ∷ [])) (routes deps) ≤ 1
routes-count_if_example = routes-count_if deps get ("web" ∷ "upload" ∷ [])

body_limit_iff_example :
    ((body_limit deps ≡ pos (10485760 + 65536)) ↔ (10485760 < 9223372036854710272))
    × ((is_negative (body_limit deps) ≡ true) ↔ (9223372036854710272 ≤ 10485760))
body_limit_iff_example = body_limit_iff deps 10485760 refl (omega arith)
