-- ===== src/Server/Http/Routes.antt =====
-- The router of internal/server/http/http.go: the table of routes, each with the middleware that stands
-- before its handler, the outermost first. How chi takes a path apart is `matches`.
pub mod Guarded
pub mod Apart
use gophprofile.Base.{
  ℤ, pos, negsuc, int64_of, ℕ, ◌+◌, ◌-◌, ◌*◌, ◌%◌, String, Bool, true, false, not, ◌&&◌, List, [],
  ◌∷◌, ◌++◌, str_eq, ◌==◌, if◌then◌else◌,
}
use gophprofile.Config.{Http, RateLimit}
use gophprofile.Config.Defaults.{Duration, Float}
use gophprofile.Config.Numbers.{is_nan, below_zero, magnitude}

pub data Segment : Type 0 where
  lit : String → Segment
  param : String → Segment
  rest : Segment  -- what Mount passes on

pub data Middleware : Type 0 where
  tracing measuring request_id logging recovering limiting : Middleware
  timeout : Duration → Middleware
  max_bytes : ℤ → Middleware
  extend_write_deadline : Duration → Middleware

pub data Endpoint : Type 0 where
  health liveness metrics : Endpoint
  upload avatar_content avatar_metadata delete_avatar : Endpoint
  user_avatar_content user_avatars delete_user_avatar : Endpoint
  web_upload_form web_gallery web_static web_upload : Endpoint

pub data Method : Type 0 where
  get post delete any : Method

pub record Route : Type 0 where
  pub method : Method
  pub path : List Segment
  pub middleware : List Middleware
  pub endpoint : Endpoint

-- The fields of Deps that decide on routes: an interface that is not there is `false`.
pub record Deps : Type 0 where
  pub http : Http
  pub rate_limit : RateLimit
  pub max_upload_bytes : ℤ
  pub web : Bool
  pub tracing : Bool
  pub metrics : Bool
  pub metrics_handler : Bool

abbrev pub multipart_overhead_bytes : ℤ
multipart_overhead_bytes = pos (64 * 1024)

-- The low 64 bits, and the sum of two int64.
abbrev word : ℤ → ℕ
word (pos n) = n % 18446744073709551616
word (negsuc n) = 18446744073709551615 - n % 18446744073709551616

abbrev pub add64 : ℤ → ℤ → ℤ
add64 a b = int64_of (word a + word b)

-- rps > 0
unfoldable pub above_zero : Float → Bool
above_zero f = not (is_nan f) && not (below_zero f) && not (magnitude f == 0)

module _ {A : Type 0} where
  abbrev pub only_if : Bool → List A → List A
  only_if true xs = xs
  only_if false xs = []

-- The bound of a body with a file, an int64.
abbrev pub body_limit : Deps → ℤ
body_limit d = add64 d.max_upload_bytes multipart_overhead_bytes

unfoldable pub uploading : Deps → List Middleware
uploading d =
    max_bytes (body_limit d)
    ∷ timeout d.http.read_timeout
    ∷ extend_write_deadline (add64 d.http.read_timeout d.http.write_timeout)
    ∷ []

-- r.Use before any route
unfoldable pub outer : Deps → List Middleware
outer d =
    only_if d.tracing (tracing ∷ [])
    ++ (only_if d.metrics (measuring ∷ []) ++ request_id ∷ logging ∷ recovering ∷ [])

unfoldable pub limit : Deps → List Middleware
limit d = only_if (above_zero d.rate_limit.rps) (limiting ∷ [])

abbrev pub api : List Segment → List Segment
api path = lit "api" ∷ lit "v1" ∷ path

-- A route under `Use` of all requests, of its group and of its own.
abbrev route : Deps → Method → List Segment → List Middleware → Endpoint → Route
route d method path middleware endpoint = record {
  method = method;
  path = path;
  middleware = outer d ++ middleware;
  endpoint = endpoint;
}

abbrev within_time : Deps → List Middleware
within_time d = limit d ++ timeout d.http.request_timeout ∷ []

abbrev avatar : List Segment
avatar = lit "avatars" ∷ param "avatar_id" ∷ []

abbrev user : String → List Segment
user what = lit "users" ∷ param "user_id" ∷ lit what ∷ []

unfoldable pub api_routes : Deps → List Route
api_routes d =
    route d post (api (lit "avatars" ∷ [])) (limit d ++ uploading d) upload
    ∷ route d get (api avatar) (within_time d) avatar_content
    ∷ route d get (api (avatar ++ lit "metadata" ∷ [])) (within_time d) avatar_metadata
    ∷ route d delete (api avatar) (within_time d) delete_avatar
    ∷ route d get (api (user "avatar")) (within_time d) user_avatar_content
    ∷ route d get (api (user "avatars")) (within_time d) user_avatars
    ∷ route d delete (api (user "avatar")) (within_time d) delete_user_avatar
    ∷ []

abbrev pub web_path : List Segment → List Segment
web_path path = lit "web" ∷ path

unfoldable pub mount_web : Deps → List Route
mount_web d =
    route d get (web_path (lit "upload" ∷ [])) (within_time d) web_upload_form
    ∷ route d get (web_path (lit "gallery" ∷ param "user_id" ∷ [])) (within_time d) web_gallery
    ∷ route d any (web_path (lit "static" ∷ rest ∷ [])) (within_time d) web_static
    ∷ route d post (web_path (lit "upload" ∷ [])) (limit d ++ uploading d) web_upload
    ∷ []

unfoldable pub service_routes : Deps → List Route
service_routes d =
    route d get (lit "health" ∷ []) [] health
    ∷ route d get (lit "livez" ∷ []) [] liveness
    ∷ only_if d.metrics_handler (route d get (lit "metrics" ∷ []) [] metrics ∷ [])

-- New
unfoldable pub routes : Deps → List Route
unfolding service_routes api_routes mount_web
routes d = service_routes d ++ (api_routes d ++ only_if d.web (mount_web d))

-- Whether a path, taken apart at its slashes, fits a pattern.
unfoldable pub matches : List Segment → List String → Bool
matches [] [] = true
matches [] (_ ∷ _) = false
matches (rest ∷ _) parts = true
matches (lit text ∷ more) [] = false
matches (lit text ∷ more) (part ∷ parts) = str_eq text part && matches more parts
matches (param name ∷ more) [] = false
matches (param name ∷ more) (part ∷ parts) = matches more parts

-- rateLimiting: the answer of the limiters decides whether the handler runs; else the client is told
-- to come back after some seconds.
pub data Limited (A : Type 0) : Type 0 where
  passed : A → Limited A
  too_many_requests : (retry_after : ℕ) → Limited A

module _ {A : Type 0} where
  unfoldable pub rate_limiting : Bool × ℕ → A → Limited A
  rate_limiting (true, retry_after) handled = passed handled
  rate_limiting (false, retry_after) handled = too_many_requests retry_after
