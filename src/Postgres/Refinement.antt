-- ===== src/Postgres/Refinement.antt =====
-- internal/repository/postgres/avatars.go: SetProcessingStatus and CompleteProcessing as steps of an
-- abstract machine, which only knows the status of each live avatar.
use gophprofile.Base.{
  String, StringMap, Bool, ℕ, ◌≡◌, ◌≢◌, refl, sym, ap, ◌∙◌, subst, inl, inr, true, false, Option,
  none, some, [], ◌∷◌, arith, eq_iff, ◌==◌, count_if, if◌then◌else◌, Bool-cases,
}
use gophprofile.Fault.{Error, Result, ok, err, sentinel, is, not_found, no_rows, invalid_transition}
use gophprofile.Domain.ProcessingStatus as Processing
use gophprofile.Domain.ProcessingStatus.{ProcessingStatus}
use gophprofile.Domain.Keys.{Uuid}
use gophprofile.World.{Row, World, meet, pure, ◌>>=◌, on_error, on_result, perform}
use gophprofile.Postgres
use gophprofile.Postgres.{exists_query, transition_error, exec_transition, exec, none_touched}
use gophprofile.Postgres.Queries.{Table, has_id, is_live, update_rows, set_processing_status_query}
use gophprofile.Postgres.Evolution.{find_row, AtMostOne}
use gophprofile.Postgres.Outcomes.{exec-cases}

-- The abstract state: the status of an avatar that is live.
abbrev pub live_status : Option Row → Option ProcessingStatus
live_status none = none
live_status (some r) = if is_live r then some r.processing_status else none

abbrev pub status_in : Table → Uuid → Option ProcessingStatus
status_in t id = live_status (find_row id t)

-- A step of the abstract machine: one avatar moves, along a transition that is allowed.
pub record Moves (id : Uuid) (s : ProcessingStatus) (before after : Uuid → Option ProcessingStatus)
    : Type 0 where
  pub from : ProcessingStatus
  pub was : before id ≡ some from
  pub allowed : Processing.is_any from (Processing.allowed_from s) ≡ true
  pub becomes : after id ≡ some s
  pub others : (j : Uuid) → j ≢ id → after j ≡ before j

-- A change of a line that sets the status and keeps what the abstract state is read by.
pub record Sets (s : ProcessingStatus) (f : Row → Row) : Type 0 where
  pub same_id : (r : Row) → (f r).id ≡ r.id
  pub same_life : (r : Row) → (f r).deleted_at ≡ r.deleted_at
  pub status : (r : Row) → (f r).processing_status ≡ s

module _ (id : Uuid) (s : ProcessingStatus) (f : Row → Row) (sets : Sets s f) where
  none_left :
      (t : Table) → count_if (has_id id) t ≡ 0 → count_if (set_processing_status_query id s) t ≡ 0
  unfolding set_processing_status_query
  none_left [] h = refl
  none_left (r ∷ rs) h = ground (arith, none_left rs)

  -- The line at the head has the id, and it is the only one.
  touched_here :
      (r : Row) (rs : Table)
      → has_id id r ≡ true
      → set_processing_status_query id s r ≡ true
      → (status_in (r ∷ rs) id ≡ some r.processing_status)
        × (Processing.is_any r.processing_status (Processing.allowed_from s) ≡ true)
        × (status_in (update_rows (set_processing_status_query id s) f (r ∷ rs)) id ≡ some s)
  unfolding find_row update_rows set_processing_status_query
  touched_here r rs h q = ground (arith, sets.same_id r, sets.same_life r, sets.status r)

  abbrev Touched : Table → Type 0
  Touched t =
      (p : ProcessingStatus) × (status_in t id ≡ some p)
      × (Processing.is_any p (Processing.allowed_from s) ≡ true)
      × (status_in (update_rows (set_processing_status_query id s) f t) id ≡ some s)

  skipped : (r : Row) (rs : Table) → has_id id r ≡ false → Touched rs → Touched (r ∷ rs)
  unfolding find_row update_rows set_processing_status_query
  skipped r rs h (p, a, b, c) = (p, ground (arith, a), b, ground (arith, c, sets.same_id r))

  only_here :
      (r : Row) (rs : Table)
      → has_id id r ≡ true
      → AtMostOne id (r ∷ rs)
      → (count_if (set_processing_status_query id s) (r ∷ rs) == 0) ≡ false
      → set_processing_status_query id s r ≡ true
  only_here r rs h u g = ground (arith, none_left rs)

  not_here :
      (r : Row) (rs : Table)
      → has_id id r ≡ false
      → AtMostOne id (r ∷ rs)
      → (count_if (set_processing_status_query id s) (r ∷ rs) == 0) ≡ false
      → AtMostOne id rs × ((count_if (set_processing_status_query id s) rs == 0) ≡ false)
  unfolding set_processing_status_query
  not_here r rs h u g = ground arith

  touched :
      (t : Table)
      → AtMostOne id t
      → (count_if (set_processing_status_query id s) t == 0) ≡ false
      → Touched t
  touched [] u h = ground arith
  touched (r ∷ rs) u h = elim (Bool-cases (has_id id r)) [
    | inl here ↦
        let (a, b, c) = touched_here r rs here (only_here r rs here u h) in
        (r.processing_status, a, b, c)
    | inr there ↦ let (v, g) = not_here r rs there u h in skipped r rs there (touched rs v g)
  ]

  others_same :
      (j : Uuid) (t : Table)
      → j ≢ id
      → status_in (update_rows (set_processing_status_query id s) f t) j ≡ status_in t j
  unfolding find_row update_rows set_processing_status_query
  others_same j [] d = refl
  others_same j (r ∷ rs) d =
      ground (arith, others_same j rs d, eq_iff r.id j, eq_iff r.id id, sets.same_id r)

  pub update_rows-Moves :
      (t : Table)
      → AtMostOne id t
      → (count_if (set_processing_status_query id s) t == 0) ≡ false
      → Moves id s (status_in t) (status_in (update_rows (set_processing_status_query id s) f t))
  update_rows-Moves t u h =
      let (p, a, b, c) = touched t u h in
      record { from = p; was = a; allowed = b; becomes = c; others = λ j d. others_same j t d }

none-ne-some : (e : Error) → ◌≢◌ {A = Option Error} none (some e)
none-ne-some e = λ h. ground arith

some_touched : (n : ℕ) → none_touched n ≡ none → (n == 0) ≡ false
some_touched n h = ground arith

exec-Moves :
    (id : Uuid) (s : ProcessingStatus) (f : ℕ → Row → Row) (w : World)
    → ((n : ℕ) → Sets s (f n))
    → AtMostOne id (meet w).table
    → (exec (set_processing_status_query id s) f w).0 ≡ none
    → Moves id s
        (status_in (meet w).table)
        (status_in (exec (set_processing_status_query id s) f w).1.table)
exec-Moves id s f w sets u h = elim (exec-cases (set_processing_status_query id s) f w) [
  | inl (e, q, k) ↦ absurd (none-ne-some e (sym h ∙ k))
  | inr k ↦
      subst (λ x. Moves id s (status_in (meet w).table) (status_in x.1.table)) (sym k)
        (update_rows-Moves id s (f (meet w).now) (sets (meet w).now) (meet w).table u
          (some_touched _ (ap (λ x. x.0) (sym k) ∙ h)))
]

answered-some :
    (r : Result (Unit {0})) (w : World)
    → (on_result r
        (λ e. pure (some (if is e no_rows then sentinel not_found else e)))
        (λ _. pure (some (sentinel invalid_transition)))
        w).0
      ≢ none
unfolding on_result pure
answered-some (ok a) w = λ h. ground arith
answered-some (err e) w = λ h. ground arith

transition_error-some : (id : Uuid) (w : World) → (transition_error id w).0 ≢ none
unfolding transition_error ◌>>=◌
transition_error-some id w = let (r, v) = perform (exists_query id) w in answered-some r v

failing :
    (b : Bool) (id : Uuid) (e : Error) (w : World)
    → ((if b then transition_error id else pure (some e)) w).0 ≢ none
unfolding pure
failing true id e w = transition_error-some id w
failing false id e w = λ h. ground arith

-- What a transition does after its statement.
after :
    (id : Uuid) (o : Option Error) (w : World)
    → (on_error o
        (λ e. if is e not_found then transition_error id else pure (some e))
        (pure none)
        w).0
      ≡ none
    → (o ≡ none)
      × ((on_error o
            (λ e. if is e not_found then transition_error id else pure (some e))
            (pure none)
            w).1
          ≡ w)
unfolding on_error pure
after id none w h = (refl, refl)
after id (some e) w h = absurd (failing (is e not_found) id e w h)

wrapped-none : (o : Option Error) → Postgres.wrapped o ≡ none → o ≡ none
wrapped-none none h = refl
wrapped-none (some e) h = ground arith

exec_transition-Moves :
    (id : Uuid) (s : ProcessingStatus) (f : ℕ → Row → Row) (w : World)
    → ((n : ℕ) → Sets s (f n))
    → AtMostOne id (meet w).table
    → (exec_transition id (set_processing_status_query id s) f w).0 ≡ none
    → Moves id s
        (status_in (meet w).table)
        (status_in (exec_transition id (set_processing_status_query id s) f w).1.table)
unfolding exec_transition ◌>>=◌
exec_transition-Moves id s f w sets u h =
    let (o, v) = exec (set_processing_status_query id s) f w in
    let (e, q) = after id o v h in
    subst (λ x. Moves id s (status_in (meet w).table) (status_in x.table)) (sym q)
      (exec-Moves id s f w sets u e)

-- SetProcessingStatus refines the abstract machine: where it returns no error, exactly one avatar has
-- moved, a live one, from a status that the transition allows to the status that was asked for, and
-- every other avatar is live with its status or not as before. Ids are unique in the table.
pub set_processing_status-Moves :
    (id : Uuid) (s : ProcessingStatus) (w : World)
    → AtMostOne id (meet w).table
    → (Postgres.set_processing_status id s w).0 ≡ none
    → Moves id s
        (status_in (meet w).table)
        (status_in (Postgres.set_processing_status id s w).1.table)
unfolding Postgres.set_processing_status pure ◌>>=◌
set_processing_status-Moves id s w u h =
    exec_transition-Moves id s _ w
      (λ n. record { same_id = λ r. refl; same_life = λ r. refl; status = λ r. refl }) u
      (wrapped-none _ h)

-- So does CompleteProcessing, to `completed`.
complete_processing-Moves :
    (id : Uuid) (keys : StringMap String) (w : World)
    → AtMostOne id (meet w).table
    → (Postgres.complete_processing id keys w).0 ≡ none
    → Moves id ProcessingStatus.completed
        (status_in (meet w).table)
        (status_in (Postgres.complete_processing id keys w).1.table)
unfolding Postgres.complete_processing pure ◌>>=◌
complete_processing-Moves id keys w u h =
    exec_transition-Moves id ProcessingStatus.completed _ w
      (λ n. record { same_id = λ r. refl; same_life = λ r. refl; status = λ r. refl }) u
      (wrapped-none _ h)
