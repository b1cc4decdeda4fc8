-- ===== src/Lifecycle/Balanced.antt =====
-- What is open after a start, in parts.
use mathlib.Core.Option.{some-injective}
use gophprofile.Base.{
  ◌≡◌, refl, ap, ◌∙◌, Option, none, some, List, [], ◌∷◌, ◌++◌, arith, Option-cases, inl, inr, Bool,
  true, false, if◌then◌else◌,
}
use gophprofile.Fault.{Error, ok, err}
use gophprofile.Lifecycle.{
  Resource, Act, Life, unless, after, deferred, started, passing, open_after, step,
}

-- From `s`, the acts of a start leave `failed` open where it fails, and `made` where it succeeds.
pub record Leaves {A : Type 0} (s failed made : List Resource) (l : Life A) : Type 0 where
  pub at_error : (e : Error) → l.0 ≡ err e → open_after l.1 s ≡ some failed
  pub at_result : (a : A) → l.0 ≡ ok a → open_after l.1 s ≡ some made

pub open_after-append :
    (xs ys : List Act) (s t : List Resource)
    → open_after xs s ≡ some t
    → open_after (xs ++ ys) s ≡ open_after ys t
unfolding open_after
open_after-append [] ys s t h = ground (arith, ap (open_after ys) (some-injective s t h))
open_after-append (x ∷ xs) ys s t h = elim (Option-cases (step x s)) [
  | inl e ↦ ground arith
  | inr (rs, e) ↦ rw (e, open_after) (open_after-append xs ys rs t (rw (e, open_after) at h))
]

module _ {A : Type 0} {s made : List Resource} where
  -- The same is left open whether it fails or not.
  pub same-Leaves : (l : Life A) → open_after l.1 s ≡ some made → Leaves s made made l
  same-Leaves l h = record { at_error = λ e g. h; at_result = λ a g. h }

module _ {A : Type 0} {s failed made : List Resource} where
  pub error-Leaves :
      {e : Error} {acts : List Act}
      → open_after acts s ≡ some failed
      → Leaves {A = A} s failed made (err e, acts)
  error-Leaves h = record { at_error = λ e g. h; at_result = λ a g. ground arith }

  pub result-Leaves :
      {a : A} {acts : List Act} → open_after acts s ≡ some made → Leaves s failed made (ok a, acts)
  result-Leaves h = record { at_error = λ e g. ground arith; at_result = λ a g. h }

module _ {A : Type 0} {s t failed made : List Resource} where
  pub after-Leaves :
      (acts : List Act) (l : Life A)
      → open_after acts s ≡ some t
      → Leaves t failed made l
      → Leaves s failed made (after acts l)
  after-Leaves acts (r, more) h v = record {
    at_error = λ e g. open_after-append acts more s t h ∙ v.at_error e g;
    at_result = λ a g. open_after-append acts more s t h ∙ v.at_result a g;
  }

module _ {A : Type 0} {s failed made : List Resource} where
  pub if-Leaves :
      (b : Bool) (l m : Life A)
      → Leaves s failed made l
      → Leaves s failed made m
      → Leaves s failed made (if b then l else m)
  if-Leaves true l m v w = v
  if-Leaves false l m v w = w

  pub unless-Leaves :
      (o : Option Error) (acts : List Act) (l : Life A)
      → open_after acts s ≡ some failed
      → Leaves s failed made l
      → Leaves s failed made (unless o acts l)
  unless-Leaves none acts l h v = v
  unless-Leaves (some e) acts l h v = error-Leaves h

  pub deferred-Leaves :
      (undo : List Act) (l : Life A) (f m : List Resource)
      → Leaves s f m l
      → open_after undo f ≡ some failed
      → open_after undo m ≡ some made
      → Leaves s failed made (deferred undo l)
  deferred-Leaves undo (r, acts) f m v g h = record {
    at_error = λ e q. open_after-append acts undo s f (v.at_error e q) ∙ g;
    at_result = λ a q. open_after-append acts undo s m (v.at_result a q) ∙ h;
  }

module _ {A B : Type 0} {s failed made : List Resource} where
  pub started-Leaves :
      (l : Life A) (undo : List Act) (k : A → Life B) (f m : List Resource)
      → Leaves s f m l
      → open_after undo f ≡ some failed
      → ((a : A) → Leaves m failed made (k a))
      → Leaves s failed made (started l undo k)
  started-Leaves (err e, acts) undo k f m v g w =
      error-Leaves (open_after-append acts undo s f (v.at_error e refl) ∙ g)
  started-Leaves (ok a, acts) undo k f m v g w = after-Leaves acts (k a) (v.at_result a refl) (w a)

  pub passing-Leaves :
      (l : Life A) (k : A → Life B) (m : List Resource)
      → Leaves s failed m l
      → ((a : A) → l.0 ≡ ok a → Leaves m failed made (k a))
      → Leaves s failed made (passing l k)
  passing-Leaves (err e, acts) k m v w = error-Leaves (v.at_error e refl)
  passing-Leaves (ok a, acts) k m v w = after-Leaves acts (k a) (v.at_result a refl) (w a refl)

module _ {A : Type 0} where
  pub unless-ok :
      (o : Option Error) (acts : List Act) (l : Life A) (a : A)
      → (unless o acts l).0 ≡ ok a
      → l.0 ≡ ok a
  unless-ok none acts l a h = h
  unless-ok (some e) acts l a h = ground arith

module _ {A B : Type 0} where
  pub passing-ok :
      (l : Life A) (k : A → Life B) (b : B) → (passing l k).0 ≡ ok b → (a : A) × ((k a).0 ≡ ok b)
  passing-ok (err e, acts) k b h = ground arith
  passing-ok (ok a, acts) k b h = (a, h)

  pub started-ok :
      (l : Life A) (undo : List Act) (k : A → Life B) (b : B)
      → (started l undo k).0 ≡ ok b
      → (a : A) × ((k a).0 ≡ ok b)
  started-ok (err e, acts) undo k b h = ground arith
  started-ok (ok a, acts) undo k b h = (a, h)

module _ {A : Type 0} where
  pub Leaves-closed : (l : Life A) → Leaves [] [] [] l → open_after l.1 [] ≡ some []
  Leaves-closed (err e, acts) v = v.at_error e refl
  Leaves-closed (ok a, acts) v = v.at_result a refl
