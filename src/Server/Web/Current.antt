-- ===== src/Server/Web/Current.antt =====
-- internal/server/web/gallery.go and view.go: which card of the gallery is marked as current.
use gophprofile.Base.{
  ℕ, String, ◌≡◌, refl, sym, ap, ◌∙◌, true, false, List, [], ◌∷◌, map, take, arith, subst, ◌≤◌, ◌⊎◌,
  inl, inr, All, All-sort, sort-All, keep_if, keep_if-same, ascending, IsDescending,
}
use gophprofile.Fault.{Result, ok, err}
use gophprofile.Domain.Avatar.{Avatar}
use gophprofile.World.{Row, World, in_order, meet, pure, ◌>>=◌, on_result, perform}
use gophprofile.World.Calls.{read-cases}
use gophprofile.Postgres
use gophprofile.Postgres.{first_row, scanned, wrapped_result, query_one, newest_first}
use gophprofile.Postgres.Queries.{Table, scan_avatar}
use gophprofile.Server.Service
use gophprofile.Server.Service.Listing.{
  list_by_user-found, newest_first-Shows, is_listed, query_listed,
}
use gophprofile.Server.Web.{PageRequest, gallery_page, gallery, shown}
use gophprofile.Server.Web.View.{Escapes, GalleryView, avatar_view, cards, new_gallery_view}

ok-inj : (a b : Avatar) → ok a ≡ ok b → a ≡ b
ok-inj a b h = cc h

wrapped-ok : (r : Result Avatar) (a : Avatar) → wrapped_result r ≡ ok a → r ≡ ok a
wrapped-ok (ok b) a h = h
wrapped-ok (err e) a h = ground arith

scanned-ok : (r : Result Avatar) (w : World) (a : Avatar) → (scanned r w).0 ≡ ok a → r ≡ ok a
unfolding on_result pure
scanned-ok (ok b) w a h = h
scanned-ok (err e) w a h = ground arith

get_current-first_row :
    (user : String) (w : World) (a : Avatar)
    → (Postgres.get_current user w).0 ≡ ok a
    → first_row (take 1 (newest_first (w.ties w.now) user (meet w).table)) ≡ ok a
unfolding Postgres.get_current query_one in_order pure ◌>>=◌
get_current-first_row user w a h =
    let op =
      perform (λ n s. (first_row (take 1 (newest_first (w.ties w.now) user s.table)), s)) w in
    let r = scanned-ok op.0 op.1 a (wrapped-ok _ a h) in
    (read-cases (λ n s. first_row (take 1 (newest_first (w.ties w.now) user s.table))) w).1 a r

gallery_page-inj : (v u : GalleryView) → gallery_page 200 v ≡ gallery_page 200 u → v ≡ u
gallery_page-inj v u h = cc h

shown-listed :
    (escapes : Escapes) (max_upload : ℕ) (user : String) (r : Result (List Avatar)) (w : World)
    (view : GalleryView)
    → (shown escapes max_upload user r w).0 ≡ gallery_page 200 view
    → (l : List Avatar) × (r ≡ ok l) × (view ≡ new_gallery_view escapes user l)
unfolding pure
shown-listed escapes max_upload user (ok l) w view h =
    (l, refl, sym (gallery_page-inj (new_gallery_view escapes user l) view h))
shown-listed escapes max_upload user (err e) w view h = ground arith

gallery-listed :
    (escapes : Escapes) (max_upload : ℕ) (r : PageRequest) (w : World) (view : GalleryView)
    → (gallery escapes max_upload r w).0 ≡ gallery_page 200 view
    → (l : List Avatar) × ((Service.list_by_user r.path_user_id w).0 ≡ ok l)
      × (view ≡ new_gallery_view escapes r.path_user_id l)
unfolding gallery ◌>>=◌
gallery-listed escapes max_upload r w view h =
    let (listed, v) = Service.list_by_user r.path_user_id w in
    shown-listed escapes max_upload r.path_user_id listed v view h

-- Of the avatars that the user has on the list, no two were created at the same time.
abbrev pub Distinct : (user : String) → Table → Type 0
Distinct user t =
    let found = keep_if (is_listed user) t in
    All (λ r. All (λ s. r.created_at ≡ s.created_at → r ≡ s) found) found

module _ (user : String) (t : Table) (P : Row → Type 0) where
  All-newest_first :
      (ties : Row → ℕ) → All P (keep_if (is_listed user) t) → All P (newest_first ties user t)
  All-newest_first ties h = All-sort _ P _ (
      All-sort (ascending ties) P _
        (subst (λ l. All P l) (sym (keep_if-same _ _ t (query_listed user))) h))

  newest_first-All :
      (ties : Row → ℕ) → All P (newest_first ties user t) → All P (keep_if (is_listed user) t)
  newest_first-All ties h =
      subst (λ l. All P l) (keep_if-same _ _ t (query_listed user))
        (sort-All (ascending ties) P _ (sort-All _ P _ h))

-- What holds of the elements of a list that begins with one holds of this one.
All-first : (P : Row → Type 0) (rs xs : List Row) (x : Row) → rs ≡ x ∷ xs → All P rs → P x
All-first P rs xs x e h = (subst (λ l. All P l) e h).0

-- The first is not older than any on the list.
first-le :
    (ties : Row → ℕ) (user : String) (t : Table) (x : Row) (xs : List Row)
    → newest_first ties user t ≡ x ∷ xs
    → All (λ r. r.created_at ≤ x.created_at) (keep_if (is_listed user) t)
first-le ties user t x xs e =
    newest_first-All user t (λ r. r.created_at ≤ x.created_at) ties
      (subst (λ l. All (λ (r : Row). r.created_at ≤ x.created_at) l) (sym e)
        (
          omega arith,
          (subst (λ l. IsDescending (λ (r : Row). r.created_at) l) e
              (newest_first-Shows ties user t).descending).0,
        ))

-- Which line is the first does not depend on the order in which the database gives equal ones.
first-same :
    (s u : Row → ℕ) (user : String) (t : Table) (x y : Row) (xs ys : List Row)
    → Distinct user t
    → newest_first s user t ≡ x ∷ xs
    → newest_first u user t ≡ y ∷ ys
    → x ≡ y
first-same s u user t x y xs ys apart e f =
    let at_x = All-first _ _ xs x e (All-newest_first user t _ s apart) in
    let same = All-first _ _ ys y f (All-newest_first user t _ u at_x) in
    let below = All-first _ _ ys y f (All-newest_first user t _ u (first-le s user t x xs e)) in
    let above = All-first _ _ xs x e (All-newest_first user t _ s (first-le u user t y ys f)) in
    same (omega (arith, below, above))

found_first :
    (rs : List Row) (a : Avatar)
    → first_row (take 1 rs) ≡ ok a
    → (x : Row) × (xs : List Row) × (rs ≡ x ∷ xs) × (scan_avatar x ≡ a)
found_first [] a h = ground arith
found_first (r ∷ rs) a h = (r, rs, refl, ok-inj (scan_avatar r) a h)

List-cases : (rs : List Row) → (rs ≡ []) ⊎ ((x : Row) × (xs : List Row) × (rs ≡ x ∷ xs))
List-cases [] = inl refl
List-cases (x ∷ xs) = inr (x, xs, refl)

nonempty :
    (s u : Row → ℕ) (user : String) (t : Table) (y : Row) (ys : List Row)
    → newest_first u user t ≡ y ∷ ys
    → (x : Row) × (xs : List Row) × (newest_first s user t ≡ x ∷ xs)
nonempty s u user t y ys e = elim (List-cases (newest_first s user t)) [
  | inl none_there ↦ absurd (
      All-first _ _ ys y e (
        All-newest_first user t (λ r. ⊥) u
          (newest_first-All user t (λ r. ⊥) s
            (subst (λ l. All (λ (r : Row). ⊥) l) (sym none_there) tt))))
  | inr one ↦ one
]

-- A gallery is shown and GetCurrent returns an avatar, each at a time of its own, on the same table, in which
-- no two avatars on the list of the user were created at the same time. Then the first card of the
-- gallery shows the avatar that GetCurrent returns, it alone is marked as current, and the other
-- cards follow it.
pub gallery-current :
    (escapes : Escapes) (max_upload : ℕ) (r : PageRequest) (w u : World) (view : GalleryView)
    (a : Avatar)
    → (meet u).table ≡ (meet w).table
    → Distinct r.path_user_id (meet w).table
    → (gallery escapes max_upload r w).0 ≡ gallery_page 200 view
    → (Postgres.get_current r.path_user_id u).0 ≡ ok a
    → (others : List Avatar) × (view.avatars
        ≡ avatar_view escapes true a ∷ cards escapes false others)
unfolding new_gallery_view
gallery-current escapes max_upload r w u view a same apart h g =
    let user = r.path_user_id in
    let t = (meet w).table in
    let (l, k, e) = gallery-listed escapes max_upload r w view h in
    let (y, ys, f, q) = found_first (newest_first (u.ties u.now) user t) a (
      subst (λ b. first_row (take 1 (newest_first (u.ties u.now) user b)) ≡ ok a) same
        (get_current-first_row user u a g)) in
    let (x, xs, m) = nonempty (w.ties w.now) (u.ties u.now) user t y ys f in
    let one = first-same (w.ties w.now) (u.ties u.now) user t x y xs ys apart m f in
    let listed = list_by_user-found user w l k ∙ ap (map scan_avatar) m in
    (
      map scan_avatar xs,
      ap (λ v. v.avatars) e
          ∙ ap (cards escapes true)
              (listed ∙ ap (λ b. b ∷ map scan_avatar xs) (ap scan_avatar one ∙ q)),
    )
