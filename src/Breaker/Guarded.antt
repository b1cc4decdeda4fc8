-- ===== src/Breaker/Guarded.antt =====
-- internal/breaker: sequences of calls of a storage, with the breaker and without, and what the
-- library documents of a breaker.
use gophprofile.Base.{ℕ, suc, ◌+◌, ◌<◌, ◌≡◌, String, Option, List, [], ◌∷◌, if◌then◌else◌}
use gophprofile.Fault.{Error, Result, err, error_of, sentinel, open_state}
use gophprofile.World.{World, St}
use gophprofile.Breaker.{
  Any, nil, Settings, Gobreaker, Storage, new_breaker, successful, open_timeout,
  consecutive_failures, without_value, with_object, returned, returned_object, asserted, translated,
  execute, Guarded, new_storage,
}
use gophprofile.Breaker

-- The states of a breaker. A closed one counts the failures since the last success.
pub data Phase : Type 0 where
  closed : (failures : ℕ) → Phase
  open_until : (expiry : ℕ) → Phase
  half_open : Phase

unfoldable pub next_phase : Settings → ℕ → Option Error → ℕ → Phase
next_phase c failures e now =
    if c.is_successful e
    then closed 0
    else if c.ready_to_trip (suc failures)
    then open_until (now + c.timeout)
    else closed (suc failures)

-- The documentation of gobreaker, of a breaker without Interval: a closed breaker runs the request and
-- counts its error as IsSuccessful says, ReadyToTrip opens it, and for the period Timeout an open one
-- returns ErrOpenState at once.
pub record Documented (g : Gobreaker) : Type 0 where
  pub phase : g.State → Phase
  pub starts : (c : Settings) → phase (g.fresh c) ≡ closed 0
  pub admits :
      (c : Settings) (m : St (Result Any)) (s : g.State) (w : World) (n : ℕ)
      → phase s ≡ closed n
      → let (r, s', w') = g.run c m s w in
        let (a, v) = m w in (r ≡ a) × (w' ≡ v) × (phase s' ≡ next_phase c n (error_of a) v.now)
  pub refuses :
      (c : Settings) (m : St (Result Any)) (s : g.State) (w : World) (t : ℕ)
      → phase s ≡ open_until t
      → w.now < t
      → let (r, s', w') = g.run c m s w in (r ≡ err (sentinel open_state)) × (w' ≡ w)

-- A call of the storage.
pub data Request : Type 0 where
  put_request : (key : String) (body : List ℕ) (size : ℕ) (content_type : String) → Request
  get_request : (key : String) → Request
  delete_request : (keys : List String) → Request

module _ (inner : Storage) where
  unfoldable pub ask : Request → St (Result Any)
  ask (put_request key body size content_type) =
      without_value (inner.put key body size content_type)
  ask (get_request key) = with_object (inner.get key)
  ask (delete_request keys) = without_value (inner.delete_many keys)

  unfoldable pub directly : List Request → World → List (Result Any) × World
  directly [] w = ([], w)
  directly (q ∷ qs) w = let (a, w') = ask q w in let (rs, w'') = directly qs w' in (a ∷ rs, w'')

module _ (g : Gobreaker) (inner : Storage) where
  open g use {State}

  -- The same call behind the breaker.
  unfoldable pub through : Request → Guarded g (Result Any)
  through (put_request key body size content_type) s w =
      let (e, s', w') = Breaker.put g inner key body size content_type s w in (returned e, s', w')
  through (get_request key) s w =
      let (r, s', w') = Breaker.get g inner key s w in (returned_object r, s', w')
  through (delete_request keys) s w =
      let (e, s', w') = Breaker.delete_many g inner keys s w in (returned e, s', w')

  unfoldable pub guarded : List Request → Guarded g (List (Result Any))
  guarded [] s w = ([], s, w)
  guarded (q ∷ qs) s w =
      let (a, s', w') = through q s w in let (rs, s'', w'') = guarded qs s' w' in (a ∷ rs, s'', w'')
