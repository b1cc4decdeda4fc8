-- ===== src/Postgres/Evolution.antt =====
-- How a line of the table avatars may change over time, and that every method of Repository, with
-- other processes that do the same, changes it in no other way.
use gophprofile.Base.{
  ℕ, ◌≤◌, ◌+◌, ◌≡◌, refl, sym, ap, ◌∙◌, Bool, true, false, Option, none, some, List, [], ◌∷◌, ◌++◌,
  arith, any, count_if, str_eq, eq_iff, if◌then◌else◌, Bool-cases, inl, inr,
}
use gophprofile.Domain.UploadStatus as Upload
use gophprofile.Domain.ProcessingStatus as Processing
use gophprofile.Domain.ProcessingStatus.{ProcessingStatus, completed}
use gophprofile.Domain.Keys.{Uuid}
use gophprofile.World.{Row, Event, Shared}
use gophprofile.World.Keeps.{IsPreorder}
use gophprofile.Postgres.Queries.{Table, has_id, update_rows}
use mathlib.Core.List.{append-nil, append_assoc}

unfoldable pub find_row : Uuid → Table → Option Row
find_row id [] = none
find_row id (r ∷ rs) = if has_id id r then some r else find_row id rs

-- One line, before and after.
pub record Evolves (r s : Row) : Type 0 where
  pub same_id : s.id ≡ r.id
  pub same_user : s.user_id ≡ r.user_id
  pub same_key : s.s3_key ≡ r.s3_key
  pub same_birth : s.created_at ≡ r.created_at
  pub upload : Upload.Leads r.upload_status s.upload_status
  pub processing : Processing.Leads r.processing_status s.processing_status
  pub stays_deleted : (n : ℕ) → r.deleted_at ≡ some n → s.deleted_at ≡ some n
  pub stays_removed : (n : ℕ) → r.files_removed_at ≡ some n → s.files_removed_at ≡ some n
  pub stays_complete : r.processing_status ≡ completed → s.thumbnail_s3_keys ≡ r.thumbnail_s3_keys
  pub retries_grow : r.retry_count ≤ s.retry_count

pub Evolves-refl : (r : Row) → Evolves r r
Evolves-refl r = record {
  same_id = refl;
  same_user = refl;
  same_key = refl;
  same_birth = refl;
  upload = Upload.here;
  processing = Processing.here;
  stays_deleted = λ n h. h;
  stays_removed = λ n h. h;
  stays_complete = λ h. refl;
  retries_grow = omega arith;
}

still_complete : {a b : ProcessingStatus} → Processing.Leads a b → a ≡ completed → b ≡ completed
still_complete p h = Processing.terminal p (ground arith) ∙ h

pub Evolves-trans : (r s t : Row) → Evolves r s → Evolves s t → Evolves r t
Evolves-trans r s t p q = record {
  same_id = q.same_id ∙ p.same_id;
  same_user = q.same_user ∙ p.same_user;
  same_key = q.same_key ∙ p.same_key;
  same_birth = q.same_birth ∙ p.same_birth;
  upload = Upload.Leads-trans p.upload q.upload;
  processing = Processing.Leads-trans p.processing q.processing;
  stays_deleted = λ n h. q.stays_deleted n (p.stays_deleted n h);
  stays_removed = λ n h. q.stays_removed n (p.stays_removed n h);
  stays_complete = λ h. q.stays_complete (still_complete p.processing h) ∙ p.stays_complete h;
  retries_grow = omega arith;
}

-- A line that is there stays there, and evolves; a line that is not may appear.
abbrev pub Goes : Option Row → Option Row → Type 0
Goes none y = Unit {0}
Goes (some r) none = ⊥
Goes (some r) (some s) = Evolves r s

Goes-refl : (x : Option Row) → Goes x x
Goes-refl none = tt
Goes-refl (some r) = Evolves-refl r

Goes-trans : (x y z : Option Row) → Goes x y → Goes y z → Goes x z
Goes-trans none y z p q = tt
Goes-trans (some r) none z p q = absurd p
Goes-trans (some r) (some s) none p q = absurd q
Goes-trans (some r) (some s) (some t) p q = Evolves-trans r s t p q

-- The primary key: no two lines have the id.
abbrev pub AtMostOne : Uuid → Table → Type 0
AtMostOne id t = count_if (has_id id) t ≤ 1

-- What every process does to the table, and to the history of published events, which only grows.
pub record Evolution (s t : Shared) : Type 0 where
  pub goes : (id : Uuid) → Goes (find_row id s.table) (find_row id t.table)
  pub unique : (id : Uuid) → AtMostOne id s.table → AtMostOne id t.table
  pub history : (more : List Event) × (t.events ≡ s.events ++ more)

instance pub Evolution-preorder : IsPreorder Evolution
Evolution-preorder = record {
  rfl = λ s. record {
    goes = λ id. Goes-refl _;
    unique = λ id h. h;
    history = ([], sym (append-nil s.events));
  };
  trans = λ s t u p q. record {
    goes = λ id.
        Goes-trans (find_row id s.table) (find_row id t.table) (find_row id u.table) (p.goes id)
          (q.goes id);
    unique = λ id h. q.unique id (p.unique id h);
    history = (
      p.history.0 ++ q.history.0,
      q.history.1
          ∙ ap (λ l. l ++ q.history.0) p.history.1
          ∙ append_assoc s.events p.history.0 q.history.0,
    );
  };
}

-- What leaves the table and the history alone is an evolution.
pub Evolution-same : (s t : Shared) → t.table ≡ s.table → t.events ≡ s.events → Evolution s t
Evolution-same s t e f = record {
  goes = λ id. rw e (Goes-refl (find_row id s.table));
  unique = λ id h. rw e h;
  history = ([], f ∙ sym (append-nil s.events));
}

Goes-if :
    (b c : Bool) (r s : Row) (x y : Option Row)
    → c ≡ b
    → Evolves r s
    → Goes x y
    → Goes (if b then some r else x) (if c then some s else y)
Goes-if true true r s x y e p q = p
Goes-if false false r s x y e p q = q
Goes-if true false r s x y e p q = cc
Goes-if false true r s x y e p q = cc

-- An update whose change is an evolution of each line that the condition selects.
pub update_rows-Goes :
    (p : Row → Bool) (f : Row → Row) (id : Uuid) (t : Table)
    → ((r : Row) → p r ≡ true → Evolves r (f r))
    → Goes (find_row id t) (find_row id (update_rows p f t))
unfolding find_row update_rows
update_rows-Goes p f id [] h = tt
update_rows-Goes p f id (r ∷ rs) h =
    let later = update_rows-Goes p f id rs h in
    elim (Bool-cases (p r)) [
      | inl e ↦ rw e (
          Goes-if (has_id id r) (has_id id (f r)) r (f r) _ _
            (ap (λ i. str_eq i id) (h r e).same_id) (h r e) later)
      | inr e ↦ rw e (Goes-if (has_id id r) (has_id id r) r r _ _ refl (Evolves-refl r) later)
    ]

pub find_row-append : (id : Uuid) (t u : Table) → Goes (find_row id t) (find_row id (t ++ u))
unfolding find_row
find_row-append id [] u = tt
find_row-append id (r ∷ rs) u =
    Goes-if (has_id id r) (has_id id r) r r _ _ refl (Evolves-refl r) (find_row-append id rs u)

-- An update that leaves the ids alone leaves their number alone.
count-update_rows :
    (p : Row → Bool) (f : Row → Row) (id : Uuid) (t : Table)
    → ((r : Row) → p r ≡ true → (f r).id ≡ r.id)
    → count_if (has_id id) (update_rows p f t) ≡ count_if (has_id id) t
unfolding update_rows
count-update_rows p f id [] h = refl
count-update_rows p f id (r ∷ rs) h =
    let later = count-update_rows p f id rs h in
    elim (Bool-cases (p r)) [ inl e ↦ rw (e, h r e, later) refl | inr e ↦ rw (e, later) refl ]

pub update_rows-Evolution :
    (p : Row → Bool) (f : Row → Row) (s : Shared)
    → ((r : Row) → p r ≡ true → Evolves r (f r))
    → Evolution s (record s { table = update_rows p f s.table })
update_rows-Evolution p f s h = record {
  goes = λ id. update_rows-Goes p f id s.table h;
  unique = λ id u. rw (count-update_rows p f id s.table (λ r e. (h r e).same_id)) u;
  history = ([], sym (append-nil s.events));
}

count-append :
    (id : Uuid) (t u : Table)
    → count_if (has_id id) (t ++ u) ≡ count_if (has_id id) t + count_if (has_id id) u
count-append id [] u = omega arith
count-append id (r ∷ rs) u = omega (arith, count-append id rs u)

count-absent : (id : Uuid) (t : Table) → any (has_id id) t ≡ false → count_if (has_id id) t ≡ 0
count-absent id [] h = refl
count-absent id (r ∷ rs) h = ground (arith, count-absent id rs)

-- A line whose id is new.
pub append-Evolution :
    (r : Row) (s : Shared)
    → any (has_id r.id) s.table ≡ false
    → Evolution s (record s { table = s.table ++ r ∷ [] })
append-Evolution r s h = record {
  goes = λ id. find_row-append id s.table (r ∷ []);
  unique = λ id u. elim (Bool-cases (has_id id r)) [
    | inl e ↦
        let same = (eq_iff r.id id).0 e in
        let none_before = count-absent r.id s.table h in
        rw (count-append id s.table (r ∷ []), sym same, none_before) (ground arith)
    | inr e ↦ rw (count-append id s.table (r ∷ []), e) (ground arith)
  ];
  history = ([], sym (append-nil s.events));
}
