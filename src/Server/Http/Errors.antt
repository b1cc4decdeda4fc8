-- ===== src/Server/Http/Errors.antt =====
-- internal/server/http/response.go: errors as answers.
use gophprofile.Base.{ℕ, ◌≤◌, ◌<◌, String, ◌≡◌, ◌≢◌, ◌⊎◌, false, arith, if◌then◌else◌}
use gophprofile.Fault.{
  Error, is, not_found, forbidden, too_large, unsupported_format, image_too_big, unsupported_size,
  missing_user_id, invalid_avatar_id, missing_file, malformed_body, user_id_too_long,
  file_name_too_long, invalid_transition, unavailable, deadline_exceeded,
}

-- `details` is empty and `max_size` zero where the body leaves them out.
pub record ErrorResponse : Type 0 where
  pub error : String
  pub details : String
  pub max_size : ℕ

abbrev plain : String → ErrorResponse
plain error = record { error = error; details = ""; max_size = 0 }

abbrev detailed : String → String → ErrorResponse
detailed error details = record { error = error; details = details; max_size = 0 }

abbrev bad_request : String → ℕ × ErrorResponse
bad_request details = (400, detailed "Bad request" details)

abbrev invalid_format : String → ℕ × ErrorResponse
invalid_format details = (400, detailed "Invalid file format" details)

-- mapError; the first case that fits decides
unfoldable pub map_error : ℕ → Error → ℕ × ErrorResponse
map_error max_upload e =
    if is e not_found
    then (404, plain "Avatar not found")
    else if is e forbidden
    then (403, detailed "Forbidden" "You can only delete your own avatars")
    else if is e too_large
    then (413, record { error = "File too large"; details = ""; max_size = max_upload })
    else if is e unsupported_format
    then invalid_format "Supported formats: jpeg, png, webp"
    else if is e image_too_big
    then invalid_format "Image has too many pixels"
    else if is e unsupported_size
    then bad_request "Supported sizes: 100x100, 300x300, original"
    else if is e missing_user_id
    then bad_request "X-User-ID header is required"
    else if is e invalid_avatar_id
    then bad_request "Avatar id must be a UUID"
    else if is e missing_file
    then bad_request "Attach the image as the file field"
    else if is e malformed_body
    then bad_request "Body must be multipart/form-data"
    else if is e user_id_too_long
    then bad_request "X-User-ID must be at most 255 characters"
    else if is e file_name_too_long
    then bad_request "File name must be at most 255 characters"
    else if is e invalid_transition
    then (409, plain "Avatar state changed")
    else if is e unavailable
    then (503, plain "Service temporarily unavailable")
    else if is e deadline_exceeded
    then (504, plain "Request timeout")
    else (500, plain "Internal error")

-- An error is always answered by a status from 400 to 599, the body tells the limit on the size only
-- with the status 413, and an error answered by 500 is not that something was not found, was forbidden
-- or is unavailable.
pub map_error-status :
    (max_upload : ℕ) (e : Error)
    → let (status, body) = map_error max_upload e in
      (400 ≤ status)
      × (status < 600)
      × ((status ≡ 413) ⊎ (body.max_size ≡ 0))
      × ((status ≢ 500)
          ⊎ ((is e not_found ≡ false) × (is e forbidden ≡ false) × (is e unavailable ≡ false)))
unfolding map_error
map_error-status max_upload e = ground arith
