-- ===== src/Server/Web.antt =====
-- internal/server/web: the pages, as what their templates get. Templates, static files and temporary
-- files are left out; what is parsed of a request stands in the record `PageRequest`.
pub mod View
pub mod Current
use Prim.Native.String.{len}
use gophprofile.Base.{
  ℕ, String, Bool, true, false, not, Option, none, some, List, [], ◌∷◌, ltb, str_eq, trim_space,
  if◌then◌else◌,
}
use gophprofile.Fault.{
  Error, Result, ok, err, sentinel, wrap, too_large, form_user_id_missing, form_user_id_too_long,
  form_file_missing, form_file_name_too_long, form_malformed,
}
use gophprofile.World.{St, pure, ◌>>=◌, on_result}
use gophprofile.Domain.Avatar.{Avatar}
use gophprofile.Server.Service
use gophprofile.Server.Service.{Service, UploadInput}
use gophprofile.Server.Http.Handlers.{
  FormFile, Field, found, absent, broken, Form, parsed, over_limit, malformed,
}
use gophprofile.Server.Web.View.{
  Escapes, UploadView, GalleryView, ErrorView, new_upload_view, new_gallery_view, describe_error,
  gallery_url,
}

pub record PageRequest : Type 0 where
  pub header_user_id : String
  pub query_user_id : String
  pub path_user_id : String
  pub form : Form
  pub form_user_id : String  -- of the body alone
  pub file : Field

-- The page with the status that it is answered by, or a redirect by 303.
pub data Page : Type 0 where
  upload_page : ℕ → UploadView → Page
  gallery_page : ℕ → GalleryView → Page
  failure_page : ErrorView → Page
  see_other : String → Page

abbrev max_user_id_len : ℕ
max_user_id_len = 255

abbrev max_file_name_len : ℕ
max_file_name_len = 255

unfoldable pub trusted_user_id : PageRequest → String × Bool
trusted_user_id r = let user_id = trim_space r.header_user_id in (user_id, not (str_eq user_id ""))

-- The owner that `accept` takes.
unfoldable pub owner : PageRequest → String
unfolding trusted_user_id
owner r =
    let (user_id, fixed) = trusted_user_id r in if fixed then user_id else trim_space r.form_user_id

module _ (escapes : Escapes) (max_upload : ℕ) where
  unfoldable pub upload_form : PageRequest → Page
  unfolding trusted_user_id
  upload_form r =
      let (user_id, fixed) = trusted_user_id r in
      upload_page 200
        (new_upload_view max_upload (if fixed then user_id else r.query_user_id) fixed "")

module _ (s : Service) (max_upload : ℕ) where
  -- The owner, and the error, if there is one.
  abbrev pub refused : String → Error → St (String × Option Error)
  refused user_id e = pure (user_id, some e)

  abbrev pub send_file : String → FormFile → St (String × Option Error)
  send_file user_id f =
      if ltb max_upload f.size
      then refused user_id (wrap (sentinel too_large))
      else if ltb max_file_name_len (len f.filename)
      then refused user_id (sentinel form_file_name_too_long)
      else do
        avatar ←
            Service.upload s (record {
              user_id = user_id;
              file_name = f.filename;
              size = f.size;
              file = f.contents;
            })
        on_result avatar (refused user_id) (λ a. pure (user_id, none))

  abbrev pub accept_parsed : PageRequest → String → St (String × Option Error)
  accept_parsed r user_id =
      if str_eq user_id ""
      then refused "" (sentinel form_user_id_missing)
      else if ltb max_user_id_len (len user_id)
      then refused user_id (sentinel form_user_id_too_long)
      else elim r.file [
        | found f ↦ send_file user_id f
        | absent ↦ refused user_id (sentinel form_file_missing)
        | broken ↦ refused user_id (wrap (sentinel form_malformed))
      ]

  unfoldable pub accept : PageRequest → St (String × Option Error)
  unfolding owner
  accept r = elim r.form [
    | over_limit ↦ refused "" (wrap (sentinel too_large))
    | malformed ↦ refused "" (wrap (sentinel form_malformed))
    | parsed ↦ accept_parsed r (owner r)
  ]

  abbrev pub answered : Escapes → PageRequest → String × Option Error → Page
  answered escapes r (user_id, none) = see_other (gallery_url escapes user_id)
  answered escapes r (user_id, some e) =
      let (status, message) = describe_error max_upload e in
      upload_page status (new_upload_view max_upload user_id (trusted_user_id r).1 message)

  unfoldable pub upload : Escapes → PageRequest → St Page
  unfolding accept
  upload escapes r = do a ← accept r; pure (answered escapes r a)

module _ (escapes : Escapes) (max_upload : ℕ) where
  -- renderFailure
  abbrev pub render_failure : Error → St Page
  render_failure e =
      let (status, message) = describe_error max_upload e in
      pure (failure_page (record { status = status; message = message }))

  abbrev pub shown : String → Result (List Avatar) → St Page
  shown user_id (err e) = render_failure e
  shown user_id (ok avatars) = pure (gallery_page 200 (new_gallery_view escapes user_id avatars))

  unfoldable pub gallery : PageRequest → St Page
  gallery r = do avatars ← Service.list_by_user r.path_user_id; shown r.path_user_id avatars
