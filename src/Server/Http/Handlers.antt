-- ===== src/Server/Http/Handlers.antt =====
-- internal/server/http: the handlers of avatars.go and users.go that do not stream an image, and what
-- they read of a request (http.go). What uuid.Parse and the parsing of
-- the form answer stands in the record `Request`.
use Prim.Native.String.{len}
use gophprofile.Base.{ℕ, String, Option, none, some, List, [], ◌∷◌, map, str_eq, ltb, if◌then◌else◌}
use gophprofile.Fault.{
  Error, Result, ok, err, sentinel, wrap, missing_user_id, invalid_avatar_id, missing_file,
  malformed_body, user_id_too_long, too_large, file_name_too_long,
}
use gophprofile.Domain.Keys.{Uuid}
use gophprofile.World.{St, pure, ◌>>=◌, on_result, on_error}
use gophprofile.Server.Service
use gophprofile.Server.Service.{Service, UploadInput}
use gophprofile.Server.Http.Errors.{ErrorResponse, map_error}
use gophprofile.Server.Http.Bodies.{
  UploadResponse, MetadataResponse, new_upload_response, new_metadata_response,
}

-- multipart.FileHeader and the contents
pub record FormFile : Type 0 where
  pub filename : String
  pub size : ℕ
  pub contents : List ℕ

-- What http.Request.FormFile answers for a field.
pub data Field : Type 0 where
  found : FormFile → Field
  absent broken : Field

-- What ParseMultipartForm answers.
pub data Form : Type 0 where
  parsed over_limit malformed : Form

pub record Request : Type 0 where
  pub header_user_id : String
  pub avatar_id_param : Option Uuid
  pub user_id_param : String
  pub form : Form
  pub form_field : String → Field

-- What is written to the client.
pub data Reply : Type 0 where
  failure : ℕ → ErrorResponse → Reply
  created : UploadResponse → Reply
  metadata : MetadataResponse → Reply
  avatars : List MetadataResponse → Reply
  no_content : Reply

abbrev pub status_of : Reply → ℕ
status_of (failure status body) = status
status_of (created body) = 201
status_of (metadata body) = 200
status_of (avatars bodies) = 200
status_of no_content = 204

abbrev pub max_user_id_len : ℕ
max_user_id_len = 255

abbrev pub max_file_name_len : ℕ
max_file_name_len = 255

unfoldable pub requester_id : Request → Result String
requester_id r =
    if str_eq r.header_user_id ""
    then err (sentinel missing_user_id)
    else if ltb max_user_id_len (len r.header_user_id)
    then err (sentinel user_id_too_long)
    else ok r.header_user_id

unfoldable pub avatar_id : Request → Result Uuid
avatar_id r = elim r.avatar_id_param [ none ↦ err (sentinel invalid_avatar_id) | some id ↦ ok id ]

-- the loop over the accepted fields
first_field : (String → Field) → List String → Result FormFile
first_field get [] = err (sentinel missing_file)
first_field get (name ∷ names) =
    let later = first_field get names in
    elim (get name) [
      | found f ↦ ok f
      | absent ↦ later
      | broken ↦ err (wrap (sentinel malformed_body))
    ]

unfoldable pub form_file : Request → Result FormFile
unfolding first_field
form_file r = elim r.form [
  | over_limit ↦ err (wrap (sentinel too_large))
  | malformed ↦ err (wrap (sentinel malformed_body))
  | parsed ↦ first_field r.form_field ("file" ∷ "image" ∷ [])
]

module _ (s : Service) (max_upload : ℕ) where
  abbrev pub respond : Error → St Reply
  respond e = pure (failure (map_error max_upload e).0 (map_error max_upload e).1)

  abbrev input_of : String → FormFile → UploadInput
  input_of user_id f = record {
    user_id = user_id;
    file_name = f.filename;
    size = f.size;
    file = f.contents;
  }

  abbrev pub upload_file : String → FormFile → St Reply
  upload_file user_id f =
      if ltb max_upload f.size
      then respond (wrap (sentinel too_large))
      else if ltb max_file_name_len (len f.filename)
      then respond (sentinel file_name_too_long)
      else do
        avatar ← Service.upload s (input_of user_id f)
        on_result avatar respond (λ a. pure (created (new_upload_response a)))

  unfoldable pub upload : Request → St Reply
  upload r =
      on_result (requester_id r) respond
        λ user_id. on_result (form_file r) respond (upload_file user_id)

  unfoldable pub avatar_metadata : Request → St Reply
  avatar_metadata r = on_result (avatar_id r) respond λ id. do
    avatar ← Service.metadata id
    on_result avatar respond (λ a. pure (metadata (new_metadata_response a)))

  abbrev pub delete_named : String → Uuid → St Reply
  delete_named user_id id = do o ← Service.delete id user_id; on_error o respond (pure no_content)

  unfoldable pub delete_avatar : Request → St Reply
  delete_avatar r =
      on_result (requester_id r) respond
        λ user_id. on_result (avatar_id r) respond (delete_named user_id)

  unfoldable pub user_avatars : Request → St Reply
  user_avatars r = do
    listed ← Service.list_by_user r.user_id_param
    on_result listed respond (λ as_read. pure (avatars (map new_metadata_response as_read)))

  unfoldable pub delete_user_avatar : Request → St Reply
  delete_user_avatar r = on_result (requester_id r) respond λ requester. do
    o ← Service.delete_current r.user_id_param requester
    on_error o respond (pure no_content)
