-- ===== src/Breaker.antt =====
-- internal/breaker: the storage and the publisher of the service behind circuit breakers. The library
-- gobreaker is the parameter `Gobreaker`: what its breakers keep is their `State`, and `run` is the
-- method Execute of a breaker with these settings. The change of a breaker's state is logged, which
-- is left out. `Any` are the values of Go's type any that pass through a breaker.
pub mod Guarded
pub mod Laws
use gophprofile.Base.{
  ℕ, ◌*◌, ◌||◌, String, Bool, true, not, ltb, Option, none, some, List, if◌then◌else◌,
}
use gophprofile.Fault.{
  Error, Result, ok, err, error_of, sentinel, foreign, wrap, is, not_found, canceled, unavailable,
  open_state, too_many_requests,
}
use gophprofile.Config.Defaults.{second}
use gophprofile.World.{World, StoredObject, Event, St}

pub data Any : Type 0 where
  nil : Any
  object : StoredObject → Any

-- gobreaker.Settings, as far as they are set here
pub record Settings : Type 0 where
  pub timeout : ℕ
  pub ready_to_trip : (consecutive : ℕ) → Bool
  pub is_successful : Option Error → Bool

pub record Gobreaker : Type 1 where
  pub State : Type 0
  pub fresh : Settings → State
  pub run : Settings → St (Result Any) → State → World → Result Any × State × World

abbrev pub consecutive_failures : ℕ
consecutive_failures = 5

-- in nanoseconds
abbrev pub open_timeout : ℕ
open_timeout = 30 * second

abbrev pub successful : Option Error → Bool
successful none = true
successful (some e) = is e not_found || is e canceled

abbrev pub new_breaker : Settings
new_breaker = record {
  timeout = open_timeout;
  ready_to_trip = λ consecutive. not (ltb consecutive consecutive_failures);
  is_successful = successful;
}

unfoldable pub translated : Result Any → Result Any
translated (ok v) = ok v
translated (err e) =
    if is e open_state || is e too_many_requests then err (wrap (sentinel unavailable)) else err e

-- service.Storage
pub record Storage : Type 0 where
  pub put : String → List ℕ → ℕ → String → St (Option Error)
  pub get : String → St (Result StoredObject)
  pub delete_many : List String → St (Option Error)

-- service.Publisher
pub record Publisher : Type 0 where
  pub publish : Event → St (Option Error)

-- `return nil, err`
abbrev pub returned : Option Error → Result Any
returned none = ok nil
returned (some e) = err e

abbrev pub returned_object : Result StoredObject → Result Any
returned_object (ok o) = ok (object o)
returned_object (err e) = err e

abbrev pub without_value : St (Option Error) → St (Result Any)
without_value m w = let (e, w') = m w in (returned e, w')

abbrev pub with_object : St (Result StoredObject) → St (Result Any)
with_object m w = let (r, w') = m w in (returned_object r, w')

abbrev pub asserted : Result Any → Result StoredObject
asserted (ok nil) = err (foreign 0)
asserted (ok (object o)) = ok o
asserted (err e) = err e

module _ (g : Gobreaker) where
  open g use {State, fresh, run}

  abbrev pub Guarded : Type 0 → Type 0
  Guarded A = State → World → A × State × World

  unfoldable pub execute : St (Result Any) → Guarded (Result Any)
  execute fn s w = let (v, s', w') = run new_breaker fn s w in (translated v, s', w')

  -- The first state of the breaker of NewStorage, and of that of NewPublisher.
  abbrev pub new_storage : State
  new_storage = fresh new_breaker

  module _ (inner : Storage) where
    unfoldable pub put : String → List ℕ → ℕ → String → Guarded (Option Error)
    put key body size content_type s w =
        let (v, s', w') = execute (without_value (inner.put key body size content_type)) s w in
        (error_of v, s', w')

    unfoldable pub get : String → Guarded (Result StoredObject)
    get key s w =
        let (v, s', w') = execute (with_object (inner.get key)) s w in (asserted v, s', w')

    unfoldable pub delete_many : List String → Guarded (Option Error)
    delete_many keys s w =
        let (v, s', w') = execute (without_value (inner.delete_many keys)) s w in
        (error_of v, s', w')

  module _ (inner : Publisher) where
    unfoldable pub publish : Event → Guarded (Option Error)
    publish event s w =
        let (v, s', w') = execute (without_value (inner.publish event)) s w in (error_of v, s', w')
