-- ===== src/Server/Service/Removal.antt =====
-- What a deletion that succeeds, and one by a stranger, have done.
use gophprofile.Base.{
  String, ◌≡◌, ◌≢◌, refl, sym, ap, subst, ◌∙◌, true, false, Option, none, some, arith, str_eq,
  eq_iff, Bool-cases, inl, inr,
}
use gophprofile.Fault.{Error, Result, ok, err}
use gophprofile.Domain.Keys.{Uuid}
use gophprofile.Domain.Avatar.{Avatar, storage_keys}
use gophprofile.World.{Row, World, pure, ◌>>=◌, meet, observe, on_error, on_result}
use gophprofile.World.Keeps.{Rely, Rely-turn, Rely-rest}
use gophprofile.Postgres
use gophprofile.Postgres.Queries.{is_live, scan_avatar}
use gophprofile.Postgres.Evolution.{find_row, Goes, AtMostOne, Evolution, Evolution-preorder}
use gophprofile.Postgres.Methods.{soft_delete-Keeps}
use gophprofile.Postgres.Lookup.{
  Found, get-Found, get-read, Deleted, soft_delete-Deleted, Goes-Deleted,
}
use gophprofile.Server.Service.{order_removal, remove, delete_found, delete}
use gophprofile.Server.Service.Safety.{order_removal-Keeps, delete_found-Keeps}

-- What follows the deletion of the line.
abbrev rest_of : Avatar → Option Error → World → Option Error × World
rest_of a o =
    on_error o (λ e. pure (some (Error.wrap e)))
      do _ ← order_removal a.id (storage_keys a); pure none

rest_of-none :
    (a : Avatar) (o : Option Error) (w : World)
    → Rely Evolution w.script
    → (rest_of a o w).0 ≡ none
    → (o ≡ none) × Evolution w.shared (rest_of a o w).1.shared
unfolding on_error pure ◌>>=◌
rest_of-none a (some e) w rely h = cc
rest_of-none a none w rely h = (refl, ((order_removal-Keeps a.id (storage_keys a)).at w rely).0)

remove-owner :
    (a : Avatar) (requester : String) (w : World)
    → str_eq a.user_id requester ≡ true
    → let (o, w1) = Postgres.soft_delete a.id w in remove a requester w ≡ rest_of a o w1
unfolding remove ◌>>=◌ pure
remove-owner a requester w e = rw e refl

-- A removal that reports no error was asked for by the owner, and has deleted the line.
remove-Deleted :
    (a : Avatar) (requester : String) (w : World)
    → Rely Evolution w.script
    → (remove a requester w).0 ≡ none
    → (a.user_id ≡ requester) × Deleted (find_row a.id (remove a requester w).1.table)
unfolding remove ◌>>=◌ pure
remove-Deleted a requester w rely h = elim (Bool-cases (str_eq a.user_id requester)) [
  | inr e ↦ ground arith
  | inl e ↦
      let (o, w1) = Postgres.soft_delete a.id w in
      let same = remove-owner a requester w e in
      let rely1 = ((soft_delete-Keeps a.id).at w rely).1 in
      let (gone, later) = rest_of-none a o w1 rely1 (sym (ap (λ x. x.0) same) ∙ h) in
      (
        (eq_iff a.user_id requester).0 e,
        rw e (Goes-Deleted _ _ (later.goes a.id) (soft_delete-Deleted a.id w gone)),
      )
]

-- Reading takes place on what others have left.
meet-Evolution :
    (w : World)
    → Rely Evolution w.script
    → Evolution w.shared (meet w).shared × Rely Evolution (meet w).script
unfolding meet
meet-Evolution w rely = (
  Rely-turn Evolution Evolution-preorder w.script rely w.shared,
  Rely-rest Evolution w.script rely,
)

Goes-owner :
    (x y : Option Row) (r : Row) (requester : String)
    → x ≡ some r
    → r.user_id ≡ requester
    → Goes x y
    → Deleted y
    → (s : Row) × (y ≡ some s) × (is_live s ≡ false) × (s.user_id ≡ requester)
Goes-owner none y r requester e u g d = cc
Goes-owner (some q) none r requester e u g d = absurd g
Goes-owner (some q) (some s) r requester e u g d = (s, refl, d, g.same_user ∙ ground arith)

found-Deleted :
    (requester : String) (r : Result Avatar) (w : World)
    → Rely Evolution w.script
    → (delete_found requester r w).0 ≡ none
    → (a : Avatar) × (r ≡ ok a)
      × (a.user_id ≡ requester)
      × Deleted (find_row a.id (delete_found requester r w).1.table)
unfolding on_result pure
found-Deleted requester (err e) w rely h = cc
found-Deleted requester (ok a) w rely h =
    let gone = remove-Deleted a requester w rely h in (a, refl, gone.0, gone.1)

-- The deletion of the line that Get has found, seen from before the call.
owner-Deleted :
    (id : Uuid) (requester : String) (w v : World) (a : Avatar)
    → Found id w a
    → a.user_id ≡ requester
    → Deleted (find_row a.id v.table)
    → Evolution (meet w).shared v.shared
    → (s : Row) × (find_row id v.table ≡ some s) × (is_live s ≡ false) × (s.user_id ≡ requester)
unfolding scan_avatar
owner-Deleted id requester w v a (r, there, live, named, same) owner gone kept =
    Goes-owner _ _ r requester there (sym (ap (λ (b : Avatar). b.user_id) same) ∙ owner)
      (kept.goes id)
      (subst (λ i. Deleted (find_row i v.table))
        (ap (λ (b : Avatar). b.id) same ∙ (eq_iff r.id id).0 named) gone)

-- A deletion that reports success was asked for by the owner of the avatar, and the avatar's line is
-- there and is deleted afterwards, whatever other calls failed; ids are unique among the lines, and
-- other processes change the table along an evolution.
pub delete-Deleted :
    (id : Uuid) (requester : String) (w : World)
    → Rely Evolution w.script
    → AtMostOne id w.table
    → (delete id requester w).0 ≡ none
    → (s : Row) × (find_row id (delete id requester w).1.table ≡ some s)
      × (is_live s ≡ false)
      × (s.user_id ≡ requester)
unfolding delete ◌>>=◌ pure observe
delete-Deleted id requester w rely unique h =
    let (r, w1) = Postgres.get id w in
    let read = get-read id w in
    let met = meet-Evolution w rely in
    let rely1 = subst (λ v. Rely Evolution v.script) (sym read.0) met.1 in
    let (a, ok_a, owner, gone) = found-Deleted requester r w1 rely1 h in
    let kept = ((delete_found-Keeps requester r).at w1 rely1).0 in
    owner-Deleted id requester w (delete_found requester r w1).1 a
      (get-Found id w a (met.0.unique id unique) ok_a) owner gone
      (subst (λ v. Evolution v.shared (delete_found requester r w1).1.shared) read.0 kept)

found-stranger :
    (requester : String) (r : Result Avatar) (w : World)
    → ((a : Avatar) → r ≡ ok a → str_eq a.user_id requester ≡ false)
    → ((delete_found requester r w).1 ≡ w)
      × ((e : Error) × ((delete_found requester r w).0 ≡ some e))
unfolding on_result pure remove
found-stranger requester (err e) w h = (refl, (_, refl))
found-stranger requester (ok a) w h = rw (h a refl) (refl, (_, refl))

stranger :
    (id : Uuid) (requester : String) (w : World) (r : Row) (a : Avatar)
    → find_row id (meet w).table ≡ some r
    → r.user_id ≢ requester
    → Found id w a
    → str_eq a.user_id requester ≡ false
unfolding scan_avatar
stranger id requester w r a there other (q, found, live, named, same) =
    ground (arith, eq_iff a.user_id requester, ap (λ (b : Avatar). b.user_id) same)

-- A deletion asked for by anybody but the owner reports an error and changes nothing: what is shared
-- is what other processes had left when the avatar was looked up.
pub delete-stranger :
    (id : Uuid) (requester : String) (w : World) (r : Row)
    → AtMostOne id (meet w).table
    → find_row id (meet w).table ≡ some r
    → r.user_id ≢ requester
    → ((delete id requester w).1.shared ≡ (meet w).shared)
      × ((e : Error) × ((delete id requester w).0 ≡ some e))
unfolding delete ◌>>=◌ pure observe
delete-stranger id requester w r unique there other =
    let (x, w1) = Postgres.get id w in
    let refused =
      found-stranger requester x w1
        (λ a k. stranger id requester w r a there other (get-Found id w a unique k)) in
    (ap (λ v. v.shared) (refused.0 ∙ (get-read id w).0), refused.1)
