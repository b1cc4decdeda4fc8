-- ===== src/Postgres/Outcomes.antt =====
-- The two outcomes of a statement: refused by the driver, or done on what others have left.
use gophprofile.Base.{ℕ, ◌≡◌, refl, ◌⊎◌, inl, inr, Bool, some, count_if, arith}
use gophprofile.Fault.{Error}
use gophprofile.World.{Row, World, turn, meet, pure, ◌>>=◌, on_result}
use gophprofile.World.Calls.{perform-cases}
use gophprofile.Postgres.{exec, statement, none_touched}
use gophprofile.Postgres.Queries.{update_rows}

-- The world after the statement.
abbrev pub updated : (Row → Bool) → (ℕ → Row → Row) → World → World
updated p f w = record (meet w) {
  shared = record (meet w).shared { table = update_rows p (f (meet w).now) (meet w).table };
}

pub exec-cases :
    (p : Row → Bool) (f : ℕ → Row → Row) (w : World)
    → ((e : Error) × ((turn w.script).fault ≡ some e) × ((exec p f w).0 ≡ some e))
      ⊎ (exec p f w ≡ (none_touched (count_if p (meet w).table), updated p f w))
unfolding exec pure ◌>>=◌ on_result
exec-cases p f w = elim (perform-cases (statement p f) w) [
  | inl (e, q, k) ↦ inl (e, q, ground arith)
  | inr k ↦ inr (rw k refl)
]
