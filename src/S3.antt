-- ===== src/S3.antt =====
-- internal/storage/s3: Storage over the client of MinIO. `etag_of` is the validator that the server
-- computes. Spans, deadlines and the transport are the script's refusals (World).
pub mod Laws
pub mod Evolution
pub mod Startup
use gophprofile.Base.{
  ℕ, zero, suc, String, ◌||◌, Bool, true, false, Option, none, some, List, [], ◌∷◌, str_eq, ◌==◌,
  if◌then◌else◌, StringMap, lookup, insert, without,
}
use gophprofile.Fault.{
  Error, Result, ok, err, sentinel, foreign, response, wrap, both, not_found, join,
}
use gophprofile.World.{
  StoredObject, Shared, World, Turn, St, Op, pure, ◌>>=◌, ◌>>◌, on_result, on_error, perform, turn,
  meet,
}

abbrev pub Objects : Type 0
Objects = StringMap StoredObject

abbrev default_content_type : String
default_content_type = "application/octet-stream"

unfoldable pub is_not_found : Error → Bool
is_not_found (sentinel s) = false
is_not_found (foreign n) = false
is_not_found (response code status) =
    str_eq code "NoSuchKey" || str_eq code "NoSuchBucket" || status == 404
is_not_found (wrap e) = is_not_found e
is_not_found (both d e) = is_not_found d || is_not_found e

unfoldable pub map_error : Error → Error
unfolding is_not_found
map_error e = if is_not_found e then wrap (sentinel not_found) else wrap e

-- the server's part of PutObject
abbrev put_object : (List ℕ → String) → String → List ℕ → ℕ → String → Op (Unit {0})
put_object etag_of key body size content_type n s = (
  ok tt,
  record s {
    objects =
        insert key
          (record { body = body; etag = etag_of body; content_type = content_type; size = size })
          s.objects;
  },
)

unfoldable pub put : (List ℕ → String) → String → List ℕ → ℕ → String → St (Option Error)
unfolding map_error
put etag_of key body size content_type = do
  r ← perform (
      put_object etag_of key body size
        (if str_eq content_type "" then default_content_type else content_type))
  on_result r (λ e. pure (some (map_error e))) (λ _. pure none)

-- the server's part of Stat
abbrev found : Option StoredObject → Result StoredObject
found none = err (response "NoSuchKey" 404)
found (some o) = ok o

abbrev stat_object : String → Op StoredObject
stat_object key n s = (found (lookup key s.objects), s)

-- GetObject opens, and Stat asks the server.
unfoldable pub get : String → St (Result StoredObject)
unfolding map_error
get key = do
  opened ← perform (λ n s. (ok tt, s))
  on_result opened (λ e. pure (err (map_error e)))
      λ (_ : Unit {0}). do
        info ← perform (stat_object key)
        on_result info (λ e. pure (err (map_error e))) (λ o. pure (ok o))

abbrev pub remove_keys : List String → Objects → Objects
remove_keys [] m = m
remove_keys (k ∷ ks) m = remove_keys ks (without k m)

-- The errors among the results, where the key at `at` has met the error `e` and the others none.
result_errors : Error → ℕ → List String → List Error
unfolding map_error
result_errors e at [] = []
result_errors e zero (k ∷ ks) = if is_not_found e then [] else map_error e ∷ []
result_errors e (suc at) (k ∷ ks) = result_errors e at ks

-- The keys that are gone then: a key that was not found is gone too.
gone_keys : Error → ℕ → List String → List String
unfolding is_not_found
gone_keys e at [] = []
gone_keys e zero (k ∷ ks) = if is_not_found e then k ∷ ks else ks
gone_keys e (suc at) (k ∷ ks) = k ∷ gone_keys e at ks

abbrev wrapped : Option Error → Option Error
wrapped none = none
wrapped (some e) = some (wrap e)

-- A refused batch has removed nothing; a batch that was served may have met an error at one key.
unfoldable pub answer : Option Error → Bool → ℕ → List String → Option Error × List String
unfolding result_errors gone_keys
answer none landed at keys = (none, keys)
answer (some e) false at keys = (some (wrap e), [])
answer (some e) true at keys = (wrapped (join (result_errors e at keys)), gone_keys e at keys)

unfoldable pub delete_batch : List String → St (Option Error)
unfolding answer
delete_batch keys w =
    let t = turn w.script in
    let w' = meet w in
    let (r, gone) = answer t.fault t.landed t.reach keys in
    (r, record w' { shared = record w'.shared { objects = remove_keys gone w'.objects } })

unfoldable pub delete_many : List String → St (Option Error)
unfolding delete_batch
delete_many [] = pure none
delete_many (k ∷ ks) = delete_batch (k ∷ ks)
