-- ===== src/Postgres/Lookup.antt =====
-- What Get reads, and what SoftDelete leaves, of the line with an id.
use gophprofile.Base.{
  ℕ, ◌≡◌, refl, ◌∙◌, true, false, Option, none, some, List, [], ◌∷◌, arith, count_if, keep_if,
  Option-cases, ◌==◌, inl, inr,
}
use gophprofile.Fault.{Result, ok, err}
use gophprofile.Domain.Keys.{Uuid}
use gophprofile.Domain.Avatar.{Avatar}
use gophprofile.World.{Row, World, meet, perform, pure, ◌>>=◌, on_result}
use gophprofile.World.Calls.{read-cases}
use gophprofile.Postgres.{get, query_one, scanned, wrapped_result, first_row, soft_delete}
use gophprofile.Postgres.Queries.{
  Table, has_id, is_live, update_rows, scan_avatar, get_avatar_query,
}
use gophprofile.Postgres.Evolution.{find_row, Goes, AtMostOne}
use gophprofile.Postgres.Outcomes.{exec-cases}

keep_if-absent :
    (id : Uuid) (t : Table) → count_if (has_id id) t ≡ 0 → keep_if (get_avatar_query id) t ≡ []
unfolding get_avatar_query
keep_if-absent id [] h = refl
keep_if-absent id (r ∷ rs) h = ground (arith, keep_if-absent id rs)

-- Where the id is a key, what Get's query finds is the line of the id.
keep_if-find_row :
    (id : Uuid) (t : Table) (r : Row) (rs : List Row)
    → AtMostOne id t
    → keep_if (get_avatar_query id) t ≡ r ∷ rs
    → (find_row id t ≡ some r) × (is_live r ≡ true) × (has_id id r ≡ true)
unfolding get_avatar_query find_row
keep_if-find_row id [] r rs u h = cc
keep_if-find_row id (q ∷ qs) r rs u h =
    ground (arith, keep_if-find_row id qs r rs, keep_if-absent id qs)

-- What a successful Get says of the line, and that reading changes nothing.
abbrev pub Found : Uuid → World → Avatar → Type 0
Found id w a =
    (r : Row) × (find_row id (meet w).table ≡ some r)
    × (is_live r ≡ true)
    × (has_id id r ≡ true)
    × (a ≡ scan_avatar r)

first_row-Found :
    (id : Uuid) (w : World) (a : Avatar) (l : List Row)
    → AtMostOne id (meet w).table
    → keep_if (get_avatar_query id) (meet w).table ≡ l
    → first_row l ≡ ok a
    → Found id w a
first_row-Found id w a [] u q h = cc
first_row-Found id w a (r ∷ rs) u q h =
    let found = keep_if-find_row id (meet w).table r rs u q in
    (r, found.0, found.1, found.2, ground arith)

scanned-ok :
    (r : Result Avatar) (w : World)
    → ((scanned r w).1 ≡ w) × ((a : Avatar) → wrapped_result (scanned r w).0 ≡ ok a → r ≡ ok a)
unfolding on_result pure
scanned-ok (ok b) w = (refl, λ a h. h)
scanned-ok (err e) w = (refl, λ a h. cc)

pub get-read :
    (id : Uuid) (w : World)
    → ((get id w).1 ≡ meet w)
      × ((a : Avatar)
          → (get id w).0 ≡ ok a
          → first_row (keep_if (get_avatar_query id) (meet w).table) ≡ ok a)
unfolding get query_one pure ◌>>=◌ on_result
get-read id w =
    let read = read-cases (λ n t. first_row (keep_if (get_avatar_query id) t.table)) w in
    let answer =
      scanned-ok (perform (λ n t. (first_row (keep_if (get_avatar_query id) t.table), t)) w).0
        (perform (λ n t. (first_row (keep_if (get_avatar_query id) t.table), t)) w).1 in
    (answer.0 ∙ read.0, λ a h. read.1 a (answer.1 a h))

pub get-Found :
    (id : Uuid) (w : World) (a : Avatar)
    → AtMostOne id (meet w).table
    → (get id w).0 ≡ ok a
    → Found id w a
get-Found id w a u h = first_row-Found id w a _ u refl ((get-read id w).1 a h)

-- The line that SoftDelete has touched.
abbrev pub Deleted : Option Row → Type 0
Deleted none = ⊥
Deleted (some r) = is_live r ≡ false

abbrev to_deleted : ℕ → Row → Row
to_deleted n r = record r { deleted_at = some n; updated_at = n }

update_rows-Deleted :
    (id : Uuid) (n : ℕ) (t : Table)
    → (count_if (get_avatar_query id) t == 0) ≡ false
    → Deleted (find_row id (update_rows (get_avatar_query id) (to_deleted n) t))
unfolding find_row update_rows get_avatar_query
update_rows-Deleted id n [] h = ground arith
update_rows-Deleted id n (r ∷ rs) h = ground (arith, update_rows-Deleted id n rs)

-- SoftDelete without an error has deleted a line with the id.
pub soft_delete-Deleted :
    (id : Uuid) (w : World)
    → (soft_delete id w).0 ≡ none
    → Deleted (find_row id (soft_delete id w).1.table)
unfolding soft_delete pure ◌>>=◌
soft_delete-Deleted id w h = elim (exec-cases (get_avatar_query id) to_deleted w) [
  | inl (e, q, k) ↦ ground arith
  | inr k ↦ rw k (update_rows-Deleted id (meet w).now (meet w).table (ground arith))
]

pub Goes-Deleted : (x y : Option Row) → Goes x y → Deleted x → Deleted y
Goes-Deleted none y g h = absurd h
Goes-Deleted (some r) none g h = absurd g
Goes-Deleted (some r) (some s) g h = elim (Option-cases r.deleted_at) [
  | inl e ↦ ground arith
  | inr (n, e) ↦ rw (g.stays_deleted n e)
]
