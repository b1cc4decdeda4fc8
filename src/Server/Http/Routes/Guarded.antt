-- ===== src/Server/Http/Routes/Guarded.antt =====
-- internal/server/http/http.go: what stands before which handler.
use gophprofile.Base.{
  ap, ◌∙◌, pos, is_negative, ◌<◌, ◌≤◌, ◌+◌, ◌↔◌, ℕ, ◌≡◌, refl, Bool, true, false, ◌||◌, List, [],
  ◌∷◌, ◌++◌, All, arith, if◌then◌else◌, str_eq, Bool-cases, inl, inr,
}
use gophprofile.Server.Http.Routes.{
  tracing, measuring, request_id, logging, recovering, Segment, lit, Middleware, limiting, timeout,
  max_bytes, extend_write_deadline, Endpoint, upload, web_upload, Route, Deps,
  multipart_overhead_bytes, add64, body_limit, above_zero, outer, limit, uploading, api_routes,
  mount_web, service_routes, routes, only_if,
}

abbrev pub is_limiting : Middleware → Bool
is_limiting limiting = true
is_limiting _ = false

abbrev pub takes_file : Endpoint → Bool
takes_file upload = true
takes_file web_upload = true
takes_file _ = false

-- The path stands under /api or /web.
abbrev pub is_public : List Segment → Bool
is_public (lit text ∷ path) = str_eq text "api" || str_eq text "web"
is_public _ = false

-- What a route has before its handler, from the outside in.
abbrev expected_inner : Deps → Bool → List Middleware
expected_inner d true =
    max_bytes (add64 d.max_upload_bytes multipart_overhead_bytes)
    ∷ timeout d.http.read_timeout
    ∷ extend_write_deadline (add64 d.http.read_timeout d.http.write_timeout)
    ∷ []
expected_inner d false = timeout d.http.request_timeout ∷ []

abbrev pub expected : Deps → Route → List Middleware
expected d r =
    if is_public r.path
    then only_if (above_zero d.rate_limit.rps) (limiting ∷ [])
      ++ expected_inner d (takes_file r.endpoint)
    else []

-- What stands before every handler, by whether spans and metrics are on.
abbrev pub expected_outer : (tracing_on metrics_on : Bool) → List Middleware
expected_outer true true = tracing ∷ measuring ∷ request_id ∷ logging ∷ recovering ∷ []
expected_outer true false = tracing ∷ request_id ∷ logging ∷ recovering ∷ []
expected_outer false true = measuring ∷ request_id ∷ logging ∷ recovering ∷ []
expected_outer false false = request_id ∷ logging ∷ recovering ∷ []

abbrev pub IsGuarded : Deps → Route → Type 0
IsGuarded d r = r.middleware ≡ expected_outer d.tracing d.metrics ++ expected d r

abbrev Stands : Deps → Route → Type 0
Stands d r = r.middleware ≡ outer d ++ expected d r

outer-expected : (d : Deps) → outer d ≡ expected_outer d.tracing d.metrics
unfolding outer
outer-expected d = elim (Bool-cases d.tracing) [
  | inl t ↦ elim (Bool-cases d.metrics) [ inl m ↦ rw (t, m) refl | inr m ↦ rw (t, m) refl ]
  | inr t ↦ elim (Bool-cases d.metrics) [ inl m ↦ rw (t, m) refl | inr m ↦ rw (t, m) refl ]
]

module _ {A : Type 0} {P Q : A → Type 0} where
  All-map : ((x : A) → P x → Q x) → (xs : List A) → All P xs → All Q xs
  All-map f [] h = tt
  All-map f (x ∷ xs) h = (f x h.0, All-map f xs h.1)

module _ {A : Type 0} (P : A → Type 0) where
  All-append : (xs ys : List A) → All P xs → All P ys → All P (xs ++ ys)
  All-append [] ys h g = g
  All-append (x ∷ xs) ys h g = (h.0, All-append xs ys h.1 g)

  only_if-All : (b : Bool) (xs : List A) → All P xs → All P (only_if b xs)
  only_if-All true xs h = h
  only_if-All false xs h = tt

service-Stands : (d : Deps) → All (Stands d) (service_routes d)
unfolding service_routes
service-Stands d = (refl, (refl, only_if-All (Stands d) d.metrics_handler _ (refl, tt)))

api-Stands : (d : Deps) → All (Stands d) (api_routes d)
unfolding api_routes limit uploading
api-Stands d = (refl, (refl, (refl, (refl, (refl, (refl, (refl, tt)))))))

web-Stands : (d : Deps) → All (Stands d) (mount_web d)
unfolding mount_web limit uploading
web-Stands d = (refl, (refl, (refl, (refl, tt))))

-- Whatever is configured, a route has this before its handler, from the outside in: the span and the
-- metrics where they are on, the identifier, the log and the recovery; then, for a path under /api or
-- /web and for no other, the limiter where the rate is positive, and after it, where a file is taken,
-- the bound of the body, the time to read it and the longer time to write, and else the time of a
-- request.
pub routes-IsGuarded : (d : Deps) → All (IsGuarded d) (routes d)
unfolding routes
routes-IsGuarded d =
    let stands = All-append (Stands d) (service_routes d) _ (service-Stands d) (
      All-append (Stands d) (api_routes d) _ (api-Stands d)
        (only_if-All (Stands d) d.web (mount_web d) (web-Stands d))) in
    All-map (λ r h. h ∙ ap (λ o. o ++ expected d r) (outer-expected d)) (routes d) stands

-- The bound of a body is the greatest size of a file with the room for the form around it exactly where
-- the sum is below 2^63; a greater size of a file, which the configuration allows, makes it negative.
pub body_limit_iff :
    (d : Deps) (n : ℕ)
    → d.max_upload_bytes ≡ pos n
    → n < 9223372036854775808
    → ((body_limit d ≡ pos (n + 65536)) ↔ (n < 9223372036854710272))
      × ((is_negative (body_limit d) ≡ true) ↔ (9223372036854710272 ≤ n))
body_limit_iff d n e h = rw e (ground arith)
