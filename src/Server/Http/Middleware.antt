-- ===== src/Server/Http/Middleware.antt =====
-- internal/server/http/middleware.go: the identifier of a request, its labels and its level in the log.
-- Spans and deadlines are calls of libraries.
use Prim.Native.String.{len}
use gophprofile.Base.{
  ℕ, String, Bool, true, false, not, ◌&&◌, ◌||◌, List, [], ◌∷◌, leb, ltb, str_eq, if◌then◌else◌,
  codes,
}
use gophprofile.Domain.Keys.{Uuid}
use gophprofile.World.{St, pure, new_uuid}

abbrev max_request_id_len : ℕ
max_request_id_len = 64

abbrev method_other : String
method_other = "_OTHER"

abbrev is_method : String → List String → Bool
is_method m [] = false
is_method m (n ∷ ns) = str_eq m n || is_method m ns

unfoldable pub normalize_method : String → String
normalize_method method =
    if is_method method
      ("GET" ∷ "HEAD" ∷ "POST" ∷ "PUT" ∷ "PATCH" ∷ "DELETE" ∷ "CONNECT" ∷ "OPTIONS" ∷ "TRACE" ∷ [])
    then method
    else method_other

abbrev pub is_printable : ℕ → Bool
is_printable c = leb b' ' c && leb c b'~'

abbrev printable : List ℕ → Bool
printable [] = true
printable (c ∷ cs) = is_printable c && printable cs

unfoldable pub valid_request_id : String → Bool
valid_request_id id =
    if str_eq id "" || ltb max_request_id_len (len id) then false else printable (codes id)

-- The identifier that is put into the context and into the answer.
unfoldable pub request_id : String → St Uuid
request_id header = if not (valid_request_id header) then new_uuid else pure header

unfoldable pub service_path : String → Bool
service_path path = str_eq path "/health" || str_eq path "/livez" || str_eq path "/metrics"

pub data Level : Type 0 where
  debug info error : Level

-- The level of the record that `logging` writes.
unfoldable pub log_level : String → ℕ → Level
log_level path status = if leb 500 status then error else if service_path path then debug else info
