-- ===== src/Worker/Handler/Cleaned.antt =====
-- A handled deletion has left no file.
use gophprofile.Base.{
  ℕ, String, ◌≡◌, refl, sym, ap, ◌∙◌, subst, Bool, Option, none, some, List, [], ◌∷◌, All,
}
use gophprofile.Fault.{Error, Result, ok, err}
use gophprofile.Domain.Keys.{Uuid}
use gophprofile.World.{Row, Shared, World, St, pure, ◌>>=◌, on_error, on_result, meet}
use gophprofile.World.Keeps.{
  IsPreorder, Rely, Rely-rest, Keeps, Keeps-bind, Keeps-perform, keeps_rules,
}
use gophprofile.Postgres
use gophprofile.S3
use gophprofile.S3.Laws.{IsGone, delete_many-IsGone}
use gophprofile.Worker.Handler.{
  Handler, Message, AvatarDeleteEvent, deleted, remove_files, unmarked, no_retry,
}

-- The files under some keys, once they are gone, are not stored again.
pub record StaysGone (keys : List String) (s t : Shared) : Type 0 where
  pub stays : All (IsGone s.objects) keys → All (IsGone t.objects) keys

module _ (keys : List String) where
  instance StaysGone-preorder : IsPreorder (StaysGone keys)
  StaysGone-preorder = record {
    rfl = λ s. record { stays = λ h. h };
    trans = λ s t u p q. record { stays = λ h. q.stays (p.stays h) };
  }

  exec-StaysGone : (p : Row → Bool) (f : ℕ → Row → Row) → Keeps (StaysGone keys) (Postgres.exec p f)
  unfolding Postgres.exec
  exec-StaysGone p f =
      Keeps-bind _ _ (Keeps-perform _ (λ n s. record { stays = λ h. h })) (search keeps_rules)

  mark-StaysGone : (id : Uuid) → Keeps (StaysGone keys) (Postgres.mark_files_removed id)
  unfolding Postgres.mark_files_removed
  mark-StaysGone id = Keeps-bind _ _ (exec-StaysGone _ _) (search keeps_rules)

  delete_batch-rely :
      (ks : List String) (w : World)
      → Rely (StaysGone keys) w.script
      → Rely (StaysGone keys) (S3.delete_batch ks w).1.script
  unfolding S3.delete_batch meet
  delete_batch-rely ks w h = Rely-rest (StaysGone keys) w.script h

module _ (h : Handler) where
  unmarked-none : (o : Option Error) → unmarked h o ≡ none → o ≡ none
  unmarked-none none e = refl
  unmarked-none (some d) e = cc

  -- What follows the removal of the files.
  abbrev marking : Uuid → Option Error → St (Option Error)
  marking id o =
      on_error o (λ e. pure (some (Error.wrap e)))
        do m ← Postgres.mark_files_removed id; pure (unmarked h m)

  marking-none :
      (keys : List String) (id : Uuid) (o : Option Error) (w : World)
      → Rely (StaysGone keys) w.script
      → (marking id o w).0 ≡ none
      → (o ≡ none) × StaysGone keys w.shared (marking id o w).1.shared
  unfolding on_error pure ◌>>=◌
  marking-none keys id (some e) w rely k = cc
  marking-none keys id none w rely k = (refl, ((mark-StaysGone keys id).at w rely).0)

  remove_files-IsGone :
      (id : Uuid) (keys : List String) (w : World)
      → Rely (StaysGone keys) w.script
      → (remove_files h id keys w).0 ≡ none
      → All (IsGone (remove_files h id keys w).1.objects) keys
  unfolding pure ◌>>=◌ S3.delete_many
  remove_files-IsGone id [] w rely k = tt
  remove_files-IsGone id (x ∷ xs) w rely k =
      let (o, w1) = S3.delete_many (x ∷ xs) w in
      let (done, later) =
        marking-none (x ∷ xs) id o w1 (delete_batch-rely (x ∷ xs) (x ∷ xs) w rely) k in
      later.stays (delete_many-IsGone (x ∷ xs) w done)

  -- What follows the decoding of the event.
  abbrev decoded : AvatarDeleteEvent → Result Uuid → St (Option Error)
  decoded event x =
      on_result x (λ e. pure (some (no_retry (Error.wrap e))))
        (λ id. remove_files h id event.s3_keys)

  decoded-IsGone :
      (event : AvatarDeleteEvent) (x : Result Uuid) (w : World)
      → Rely (StaysGone event.s3_keys) w.script
      → (decoded event x w).0 ≡ none
      → All (IsGone (decoded event x w).1.objects) event.s3_keys
  unfolding on_result pure
  decoded-IsGone event (err e) w rely k = cc
  decoded-IsGone event (ok id) w rely k = remove_files-IsGone id event.s3_keys w rely k

  deleted-decoded :
      (msg : Message) (event : AvatarDeleteEvent) (w : World)
      → h.decode_delete msg.body ≡ ok event
      → deleted h msg w ≡ decoded event (h.parse_uuid event.avatar_id) w
  unfolding deleted on_result
  deleted-decoded msg event w d = rw d refl

  -- A deletion that the handler reports as done has left no file under any of its keys, whatever calls
  -- were refused or answered half; other processes do not store the files again.
  pub deleted-IsGone :
      (msg : Message) (event : AvatarDeleteEvent) (w : World)
      → h.decode_delete msg.body ≡ ok event
      → Rely (StaysGone event.s3_keys) w.script
      → (deleted h msg w).0 ≡ none
      → All (IsGone (deleted h msg w).1.objects) event.s3_keys
  deleted-IsGone msg event w d rely k =
      let same = deleted-decoded msg event w d in
      subst (λ x. All (IsGone x.1.objects) event.s3_keys) (sym same)
        (decoded-IsGone event (h.parse_uuid event.avatar_id) w rely (sym (ap (λ x. x.0) same) ∙ k))
