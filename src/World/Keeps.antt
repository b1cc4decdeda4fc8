-- ===== src/World/Keeps.antt =====
-- Relations between what is shared before and after an action, whatever the script is, if other
-- processes respect the relation too.
use gophprofile.Base.{
  ℕ, ◌≡◌, refl, Option, none, some, List, [], ◌∷◌, All, Bool, true, false, if◌then◌else◌,
}
use gophprofile.Fault.{Error, Result, ok, err}
use gophprofile.World.{
  Shared, Turn, World, St, Op, Metric, pure, ◌>>=◌, on_result, on_option, on_error, turn, rest,
  meet, served, perform, new_uuid, observe,
}

pub record IsPreorder (R : Shared → Shared → Type 0) : Type 0 where
  pub rfl : (s : Shared) → R s s
  pub trans : (s t u : Shared) → R s t → R t u → R s u

abbrev pub Rely : (Shared → Shared → Type 0) → List Turn → Type 0
Rely R = All (λ t. (s : Shared) → R s (t.others s))

pub record Keeps {A : Type 0} (R : Shared → Shared → Type 0) (m : St A) : Type 0 where
  pub at : (w : World) → Rely R w.script → R w.shared (m w).1.shared × Rely R (m w).1.script

module _ (R : Shared → Shared → Type 0) where
  pub Rely-rest : (ts : List Turn) → Rely R ts → Rely R (rest ts)
  unfolding rest
  Rely-rest [] h = tt
  Rely-rest (t ∷ ts) h = h.1

  pub Rely-turn :
      (p : IsPreorder R) (ts : List Turn) → Rely R ts → (s : Shared) → R s ((turn ts).others s)
  unfolding turn
  Rely-turn p [] h s = p.rfl s
  Rely-turn p (t ∷ ts) h s = h.0 s

module _ {A : Type 0} (R : Shared → Shared → Type 0) (p : IsPreorder R) where
  Keeps-served :
      (o : Option Error) (l : Bool) (x : Result A × Shared) (w : World)
      → R w.shared x.1
      → R w.shared (served o l x w).1.shared × ((served o l x w).1.script ≡ w.script)
  unfolding served
  Keeps-served none l (r, s) w h = (h, refl)
  Keeps-served (some e) true (r, s) w h = (h, refl)
  Keeps-served (some e) false (r, s) w h = (p.rfl w.shared, refl)

module _ {R : Shared → Shared → Type 0} ⦃p : IsPreorder R⦄ where
  module _ {A : Type 0} where
    pub Keeps-pure : (a : A) → Keeps R (pure a)
    unfolding pure
    Keeps-pure a = record { at = λ w h. (p.rfl w.shared, h) }

    pub Keeps-perform : (op : Op A) → ((n : ℕ) (s : Shared) → R s (op n s).1) → Keeps R (perform op)
    unfolding perform meet
    Keeps-perform op h = record {
      at = λ w g.
          let t = turn w.script in
          let w' = meet w in
          let done =
            Keeps-served R p t.fault t.landed (op w'.now w'.shared) w' (h w'.now w'.shared) in
          (
            p.trans _ _ _ (Rely-turn R p w.script g w.shared) done.0,
            rw done.1 (Rely-rest R w.script g),
          );
    }

  module _ {A B : Type 0} where
    pub Keeps-bind :
        (m : St A) (f : A → St B) → Keeps R m → ((a : A) → Keeps R (f a)) → Keeps R (m >>= f)
    unfolding ◌>>=◌
    Keeps-bind m f km kf = record {
      at = λ w h.
          let (a, w') = m w in
          let first = km.at w h in
          let second = (kf a).at w' first.1 in (p.trans _ _ _ first.0 second.0, second.1);
    }

    pub Keeps-on_result :
        (r : Result A) (f : Error → St B) (g : A → St B)
        → ((e : Error) → Keeps R (f e))
        → ((a : A) → Keeps R (g a))
        → Keeps R (on_result r f g)
    unfolding on_result
    Keeps-on_result (ok a) f g kf kg = kg a
    Keeps-on_result (err e) f g kf kg = kf e

    pub Keeps-on_option :
        (o : Option A) (m : St B) (f : A → St B)
        → Keeps R m
        → ((a : A) → Keeps R (f a))
        → Keeps R (on_option o m f)
    unfolding on_option
    Keeps-on_option none m f km kf = km
    Keeps-on_option (some a) m f km kf = kf a

  module _ {B : Type 0} where
    pub Keeps-on_error :
        (o : Option Error) (f : Error → St B) (m : St B)
        → ((e : Error) → Keeps R (f e))
        → Keeps R m
        → Keeps R (on_error o f m)
    unfolding on_error
    Keeps-on_error none f m kf km = km
    Keeps-on_error (some e) f m kf km = kf e

    pub Keeps-if : (b : Bool) (m n : St B) → Keeps R m → Keeps R n → Keeps R (if b then m else n)
    Keeps-if true m n km kn = km
    Keeps-if false m n km kn = kn

  pub Keeps-new_uuid : Keeps R new_uuid
  unfolding new_uuid
  Keeps-new_uuid = record { at = λ w h. (p.rfl w.shared, h) }

  pub Keeps-observe : (m : Metric) → Keeps R (observe m)
  unfolding observe
  Keeps-observe m = record { at = λ w h. (p.rfl w.shared, h) }

pub ruleset keeps_rules = (
  Keeps-pure, Keeps-bind, Keeps-on_result, Keeps-on_option, Keeps-on_error, Keeps-if,
  Keeps-new_uuid, Keeps-observe,
)
