-- ===== src/Worker/Handler/Settled.antt =====
-- A message that the consumer forgets leaves no line unfinished.
use gophprofile.Base.{
  ℕ, ◌≡◌, refl, ◌⊎◌, inl, inr, true, false, Option, none, some, [], ◌∷◌, arith, if◌then◌else◌,
  Bool-cases, Option-cases,
}
use gophprofile.Fault.{Error, is, wrap, not_found, non_retryable}
use gophprofile.Domain.ProcessingStatus as Processing
use gophprofile.Domain.ProcessingStatus.{ProcessingStatus, is_terminal}
use gophprofile.Domain.Keys.{Uuid}
use gophprofile.World.{Row, World, St, meet, pure, ◌>>=◌, on_error}
use gophprofile.World.Keeps.{Rely, Keeps, keeps_rules}
use gophprofile.World.Calls.{IsForeign, Faults, Faults-turn}
use gophprofile.Postgres
use gophprofile.Postgres.Queries.{Table, is_live, update_rows, set_processing_status_query}
use gophprofile.Postgres.Evolution.{find_row, Evolves, Goes, Evolution, Evolution-preorder}
use gophprofile.Postgres.Methods.{exec-Keeps, transition_error-Keeps}
use gophprofile.Postgres.Changes.{set_processing_status_Evolves}
use gophprofile.Postgres.Outcomes.{exec-cases}
use gophprofile.Worker.Handler.{Message, failure, marked}

-- Nothing more is to be done for the line: it is deleted, or its processing has ended.
abbrev pub IsSettled : Option Row → Type 0
IsSettled none = Unit {0}
IsSettled (some r) = (is_live r ≡ false) ⊎ (is_terminal r.processing_status ≡ true)

abbrev to_failed : ℕ → Row → Row
to_failed n r = record r { processing_status = ProcessingStatus.failed; updated_at = n }

-- The statement that marks the failure settles the line, whether it touches it or not.
update_rows-IsSettled :
    (id : Uuid) (n : ℕ) (t : Table)
    → IsSettled (
        find_row id
          (update_rows (set_processing_status_query id ProcessingStatus.failed) (to_failed n) t))
unfolding find_row update_rows set_processing_status_query Processing.allowed_from
update_rows-IsSettled id n [] = tt
update_rows-IsSettled id n (r ∷ rs) = ground (arith, update_rows-IsSettled id n rs)

exec-IsSettled :
    (id : Uuid) (w : World)
    → Faults IsForeign w.script
    → let (o, w') =
        Postgres.exec (set_processing_status_query id ProcessingStatus.failed) to_failed w in
      IsSettled (find_row id w'.table) ⊎ ((e : Error) × (o ≡ some e) × IsForeign e)
exec-IsSettled id w fs =
    elim (exec-cases (set_processing_status_query id ProcessingStatus.failed) to_failed w) [
      | inl (e, q, k) ↦ inr (e, k, Faults-turn IsForeign w.script fs e q)
      | inr k ↦ inl (rw k (update_rows-IsSettled id (meet w).now (meet w).table))
    ]

Evolves-IsSettled : (r s : Row) → Evolves r s → IsSettled (some r) → IsSettled (some s)
Evolves-IsSettled r s g (inl d) = elim (Option-cases r.deleted_at) [
  | inl e ↦ ground arith
  | inr (n, e) ↦ inl (rw (g.stays_deleted n e))
]
Evolves-IsSettled r s g (inr d) = inr (rw (Processing.terminal g.processing d) d)

Goes-IsSettled : (x y : Option Row) (r : Row) → x ≡ some r → Goes x y → IsSettled x → IsSettled y
Goes-IsSettled none y r e g h = cc
Goes-IsSettled (some s) none r e g h = absurd g
Goes-IsSettled (some s) (some t) r e g h = Evolves-IsSettled s t g h

Goes-some : (x y : Option Row) (r : Row) → x ≡ some r → Goes x y → (s : Row) × (y ≡ some s)
Goes-some none y r e g = cc
Goes-some (some q) none r e g = absurd g
Goes-some (some q) (some s) r e g = (s, refl)

-- What SetProcessingStatus does after its statement.
abbrev rest_of : Uuid → Option Error → St (Option Error)
rest_of id o = do
  o' ←
      on_error o (λ e. if is e not_found then Postgres.transition_error id else pure (some e))
        (pure none)
  pure (Postgres.wrapped o')

rest_of-Keeps : (id : Uuid) (o : Option Error) → Keeps Evolution (rest_of id o)
rest_of-Keeps id o = search (keeps_rules, transition_error-Keeps)

rest_of-foreign :
    (id : Uuid) (o : Option Error) (w : World) (e : Error)
    → o ≡ some e
    → IsForeign e
    → (rest_of id o w).0 ≡ some (wrap e)
unfolding on_error pure ◌>>=◌
rest_of-foreign id none w e k f = cc
rest_of-foreign id (some d) w e k f = ground (arith, f.found)

set_failed-IsSettled :
    (id : Uuid) (w : World) (r : Row)
    → Rely Evolution w.script
    → Faults IsForeign w.script
    → find_row id w.table ≡ some r
    → let (m, w') = Postgres.set_processing_status id ProcessingStatus.failed w in
      IsSettled (find_row id w'.table) ⊎ ((e : Error) × (m ≡ some (wrap e)) × IsForeign e)
unfolding Postgres.set_processing_status Postgres.exec_transition ◌>>=◌
set_failed-IsSettled id w r rely fs here =
    let (o, w1) =
      Postgres.exec (set_processing_status_query id ProcessingStatus.failed) to_failed w in
    let kept =
      (exec-Keeps _ to_failed (set_processing_status_Evolves id ProcessingStatus.failed)).at w
        rely in
    let (r1, there) = Goes-some _ _ r here (kept.0.goes id) in
    elim (exec-IsSettled id w fs) [
      | inl settled ↦
          inl (Goes-IsSettled _ _ r1 there (((rest_of-Keeps id o).at w1 kept.1).0.goes id) settled)
      | inr (e, k, f) ↦ inr (e, rest_of-foreign id o w1 e k f, f)
    ]

marked-foreign :
    (msg : Message) (e d : Error) (o : Option Error)
    → o ≡ some (wrap d)
    → IsForeign d
    → msg.final ≡ false
    → is (marked msg e o) non_retryable ≡ false
unfolding is
marked-foreign msg e d none k f m = cc
marked-foreign msg e d (some x) k f m = ground (arith, f.found, f.moved, f.retried)

-- If the handler's error is one that the consumer acknowledges without a retry, though this is not
-- the last attempt, then the line of the avatar, which was there, is deleted or its processing has
-- ended. Others may change the table along an evolution; errors of the driver are foreign.
pub failure-IsSettled :
    (id : Uuid) (msg : Message) (e : Error) (w : World) (r : Row)
    → Rely Evolution w.script
    → Faults IsForeign w.script
    → find_row id w.table ≡ some r
    → msg.final ≡ false
    → is (failure id msg e w).0 non_retryable ≡ true
    → IsSettled (find_row id (failure id msg e w).1.table)
unfolding failure ◌>>=◌ pure
failure-IsSettled id msg e w r rely fs here more dropped = elim (Bool-cases (is e non_retryable)) [
  | inl k ↦ elim (set_failed-IsSettled id w r rely fs here) [
    | inl settled ↦ rw k settled
    | inr (d, q, f) ↦ ground (arith, marked-foreign msg e d _ q f more)
  ]
  | inr k ↦ ground arith
]
