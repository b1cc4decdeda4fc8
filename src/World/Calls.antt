-- ===== src/World/Calls.antt =====
-- The two outcomes of one call, and what is assumed of the errors that a dependency answers with.
use gophprofile.Base.{
  ℕ, ◌≡◌, refl, ◌⊎◌, inl, inr, Bool, true, false, Option, none, some, List, [], ◌∷◌, All,
}
use gophprofile.Fault.{Error, Result, ok, err, is, not_found, invalid_transition, non_retryable}
use gophprofile.World.{Shared, Turn, World, Op, turn, rest, meet, served, perform}

-- An error of a driver: none of the program's own sentinels that decide what a failed call means.
pub record IsForeign (e : Error) : Type 0 where
  pub found : is e not_found ≡ false
  pub moved : is e invalid_transition ≡ false
  pub retried : is e non_retryable ≡ false

abbrev pub Faults : (Error → Type 0) → List Turn → Type 0
Faults P = All (λ t. (e : Error) → t.fault ≡ some e → P e)

module _ (P : Error → Type 0) where
  pub Faults-turn : (ts : List Turn) → Faults P ts → (e : Error) → (turn ts).fault ≡ some e → P e
  unfolding turn
  Faults-turn [] h e q = cc
  Faults-turn (t ∷ ts) h e q = h.0 e q

  pub Faults-rest : (ts : List Turn) → Faults P ts → Faults P (rest ts)
  unfolding rest
  Faults-rest [] h = tt
  Faults-rest (t ∷ ts) h = h.1

module _ {A : Type 0} where
  served-cases :
      (o : Option Error) (l : Bool) (x : Result A × Shared) (w : World)
      → ((e : Error) × (o ≡ some e) × ((served o l x w).0 ≡ err e))
        ⊎ (served o l x w ≡ (x.0, record w { shared = x.1 }))
  unfolding served
  served-cases none l (r, s) w = inr refl
  served-cases (some e) l (r, s) w = inl (e, refl, refl)

  -- A call is refused by the turn's error, or it is served on what others have left.
  pub perform-cases :
      (op : Op A) (w : World)
      → ((e : Error) × ((turn w.script).fault ≡ some e) × ((perform op w).0 ≡ err e))
        ⊎ (perform op w ≡ (
          (op (meet w).now (meet w).shared).0,
          record (meet w) { shared = (op (meet w).now (meet w).shared).1 },
        ))
  unfolding perform
  perform-cases op w =
      served-cases (turn w.script).fault (turn w.script).landed (op (meet w).now (meet w).shared)
        (meet w)

  served-read :
      (o : Option Error) (l : Bool) (x : Result A) (w : World)
      → ((served o l (x, w.shared) w).1 ≡ w)
        × ((a : A) → (served o l (x, w.shared) w).0 ≡ ok a → x ≡ ok a)
  unfolding served
  served-read none l x w = (refl, λ a h. h)
  served-read (some e) true x w = (refl, λ a h. cc)
  served-read (some e) false x w = (refl, λ a h. cc)

  -- A call that only reads leaves what others have left, and answers by it if it answers.
  pub read-cases :
      (f : ℕ → Shared → Result A) (w : World)
      → ((perform (λ n s. (f n s, s)) w).1 ≡ meet w)
        × ((a : A)
            → (perform (λ n s. (f n s, s)) w).0 ≡ ok a
            → f (meet w).now (meet w).shared ≡ ok a)
  unfolding perform
  read-cases f w =
      served-read (turn w.script).fault (turn w.script).landed (f (meet w).now (meet w).shared)
        (meet w)
