-- ===== src/Server/Http/Guards.antt =====
-- What the handlers let through to the service.
use Prim.Native.String.{len}
use gophprofile.Base.{
  ℕ, ◌≤◌, String, ◌≡◌, ◌≢◌, refl, sym, subst, ◌⊎◌, inl, inr, false, none, some, Option, arith,
  eq_iff, ltb, Bool-cases,
}
use gophprofile.Fault.{Error, Result, ok, err}
use gophprofile.Domain.Keys.{Uuid}
use gophprofile.World.{Row, World, on_result, on_error, pure, ◌>>=◌}
use gophprofile.World.Keeps.{Rely}
use gophprofile.Postgres.Queries.{is_live}
use gophprofile.Postgres.Evolution.{find_row, AtMostOne, Evolution}
use gophprofile.Server.Service
use gophprofile.Server.Service.{Service}
use gophprofile.Server.Service.Removal.{delete-Deleted}
use gophprofile.Server.Http.Errors.{map_error-status}
use gophprofile.Server.Http.Handlers.{
  FormFile, Request, Reply, status_of, requester_id, avatar_id, delete_named, form_file,
  upload_file, upload, delete_avatar, respond, max_file_name_len, max_user_id_len,
}

abbrev pub Named : Request → String → Type 0
Named r user = (user ≡ r.header_user_id) × (user ≢ "") × (len user ≤ max_user_id_len)

requester_id-Named : (r : Request) (user : String) → requester_id r ≡ ok user → Named r user
unfolding requester_id
requester_id-Named r user h = ground (arith, eq_iff r.header_user_id "", eq_iff user "")

module _ (s : Service) (max_upload : ℕ) where
  -- An error is answered, and nothing else has happened.
  abbrev pub Refused : World → Reply × World → Type 0
  Refused w (reply, v) = (v ≡ w) × (400 ≤ status_of reply)

  respond-Refused : (e : Error) (w : World) → Refused w (respond s max_upload e w)
  unfolding pure
  respond-Refused e w = (refl, (map_error-status max_upload e).0)

  abbrev pub Fits : FormFile → Type 0
  Fits f = (f.size ≤ max_upload) × (len f.filename ≤ max_file_name_len)

  upload_file-guards :
      (user : String) (f : FormFile) (w : World)
      → Refused w (upload_file s max_upload user f w) ⊎ Fits f
  upload_file-guards user f w = elim (Bool-cases (ltb max_upload f.size)) [
    | inl e ↦ inl (rw e (respond-Refused _ w))
    | inr e ↦ elim (Bool-cases (ltb max_file_name_len (len f.filename))) [
      | inl d ↦ inl (rw (e, d) (respond-Refused _ w))
      | inr d ↦ inr (ground arith, ground arith)
    ]
  ]

  form-guards :
      (user : String) (x : Result FormFile) (w : World)
      → Refused w (on_result x (respond s max_upload) (upload_file s max_upload user) w)
        ⊎ ((f : FormFile) × (x ≡ ok f) × Fits f)
  unfolding on_result
  form-guards user (err e) w = inl (respond-Refused e w)
  form-guards user (ok f) w = elim (upload_file-guards user f w) [
    | inl h ↦ inl h
    | inr h ↦ inr (f, refl, h)
  ]

  user-guards :
      (r : Request) (x : Result String) (w : World)
      → Refused w (
          on_result x
            (respond s max_upload)
            (λ user. on_result (form_file r) (respond s max_upload) (upload_file s max_upload user))
            w)
        ⊎ ((user : String) × (f : FormFile) × (x ≡ ok user) × (form_file r ≡ ok f) × Fits f)
  unfolding on_result
  user-guards r (err e) w = inl (respond-Refused e w)
  user-guards r (ok user) w = elim (form-guards user (form_file r) w) [
    | inl h ↦ inl h
    | inr (f, k, h) ↦ inr (user, f, refl, k, h)
  ]

  -- An upload is either refused with the status of an error and changes nothing, or its header names a
  -- user within the limit and it has a file within the limits on its size and on its name.
  pub upload-guards :
      (r : Request) (w : World)
      → Refused w (upload s max_upload r w)
        ⊎ ((user : String) × (f : FormFile) × Named r user × (form_file r ≡ ok f) × Fits f)
  unfolding upload
  upload-guards r w = elim (user-guards r (requester_id r) w) [
    | inl h ↦ inl h
    | inr (user, f, k, j, h) ↦ inr (user, f, requester_id-Named r user k, j, h)
  ]

module _ (s : Service) (max_upload : ℕ) where
  delete-answer :
      (o : Option Error) (w : World)
      → let (reply, v) = on_error o (respond s max_upload) (pure Reply.no_content) w in
        status_of reply ≡ 204 → (o ≡ none) × (v ≡ w)
  unfolding on_error pure
  delete-answer none w h = (refl, refl)
  delete-answer (some e) w h = absurd (omega (arith, (map_error-status max_upload e).0))

  -- The line of the user's avatar, which is deleted.
  abbrev pub GoneFor : String → Uuid → World → Type 0
  GoneFor user id v =
      (line : Row) × (find_row id v.table ≡ some line)
      × (is_live line ≡ false)
      × (line.user_id ≡ user)

  named-Gone :
      (user : String) (id : Uuid) (w : World)
      → Rely Evolution w.script
      → AtMostOne id w.table
      → status_of (delete_named s max_upload user id w).0 ≡ 204
      → GoneFor user id (delete_named s max_upload user id w).1
  unfolding ◌>>=◌
  named-Gone user id w rely unique h =
      let (o, w1) = Service.delete id user w in
      let answer = delete-answer o w1 h in
      subst (GoneFor user id) (sym answer.1) (delete-Deleted id user w rely unique answer.0)

  id-Gone :
      (user : String) (x : Result Uuid) (w : World)
      → Rely Evolution w.script
      → ((id : Uuid) → AtMostOne id w.table)
      → let (reply, v) = on_result x (respond s max_upload) (delete_named s max_upload user) w in
        status_of reply ≡ 204 → (id : Uuid) × (x ≡ ok id) × GoneFor user id v
  unfolding on_result pure
  id-Gone user (err e) w rely unique h = absurd (omega (arith, (map_error-status max_upload e).0))
  id-Gone user (ok id) w rely unique h = (id, refl, named-Gone user id w rely (unique id) h)

  user-Gone :
      (r : Request) (x : Result String) (w : World)
      → Rely Evolution w.script
      → ((id : Uuid) → AtMostOne id w.table)
      → let (reply, v) =
          on_result x
            (respond s max_upload)
            (λ user.
              on_result (avatar_id r) (respond s max_upload) (delete_named s max_upload user))
            w in
        status_of reply ≡ 204
        → (user : String) × (x ≡ ok user)
          × ((id : Uuid) × (avatar_id r ≡ ok id) × GoneFor user id v)
  unfolding on_result pure
  user-Gone r (err e) w rely unique h = absurd (omega (arith, (map_error-status max_upload e).0))
  user-Gone r (ok user) w rely unique h = (user, refl, id-Gone user (avatar_id r) w rely unique h)

  -- A deletion answered by 204 had the header of a user and the id of an avatar, and the line of that
  -- avatar is there, belongs to that user and is deleted; ids are unique among the lines, and other
  -- processes change the table along an evolution.
  pub delete_avatar-Gone :
      (r : Request) (w : World)
      → Rely Evolution w.script
      → ((id : Uuid) → AtMostOne id w.table)
      → status_of (delete_avatar s max_upload r w).0 ≡ 204
      → (user : String) × (id : Uuid) × Named r user
        × (avatar_id r ≡ ok id)
        × GoneFor user id (delete_avatar s max_upload r w).1
  unfolding delete_avatar
  delete_avatar-Gone r w rely unique h =
      let (user, k, (id, j, gone)) = user-Gone r (requester_id r) w rely unique h in
      (user, id, requester_id-Named r user k, j, gone)
