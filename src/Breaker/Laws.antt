-- ===== src/Breaker/Laws.antt =====
-- internal/breaker: what the service sees of a storage behind a breaker, where the library does what
-- it documents and calls come one after another.
use gophprofile.Base.{
  ℕ, ◌*◌, suc, ◌+◌, ◌<◌, ◌≡◌, refl, sym, ap, ◌∙◌, Bool, true, false, not, ◌&&◌, ◌||◌, Bool-cases,
  inl, inr, Option, none, some, List, [], ◌∷◌, ltb, arith, if◌then◌else◌, length,
}
use gophprofile.Fault.{
  Error, Result, ok, err, error_of, is, wrap, sentinel, unavailable, open_state, too_many_requests,
  not_found, canceled,
}
use gophprofile.Config.Defaults.{second}
use gophprofile.World.{World, StoredObject}
use gophprofile.Breaker.{
  Any, nil, Settings, Gobreaker, Storage, new_breaker, successful, open_timeout,
  consecutive_failures, without_value, with_object, returned, returned_object, asserted, translated,
  execute, Guarded, new_storage,
}
use gophprofile.Breaker
use gophprofile.Breaker.Guarded.{
  closed, open_until, next_phase, Documented, Request, put_request, get_request, delete_request,
  ask, directly, through, guarded,
}

abbrev pub refusal : Option Error → Bool
refusal none = false
refusal (some e) = is e open_state || is e too_many_requests

-- A failure of the storage: neither that nothing was found nor that the client gave up.
abbrev pub faulty : Option Error → Bool
faulty none = false
faulty (some e) = not (is e not_found) && not (is e canceled)

-- Fewer than five failures in a row, where `n` came before, and no error of another breaker.
unfoldable pub spared : ℕ → List (Result Any) → Bool
spared n [] = true
spared n (r ∷ rs) =
    let calm = spared 0 rs in
    let worse = spared (suc n) rs in
    not (refusal (error_of r)) && (if faulty (error_of r) then ltb (suc n) 5 && worse else calm)

unfoldable pub failing : List (Result Any) → Bool
failing [] = true
failing (r ∷ rs) = faulty (error_of r) && failing rs

next_phase-fine :
    (n now : ℕ) (e : Option Error) → faulty e ≡ false → next_phase new_breaker n e now ≡ closed 0
unfolding next_phase
next_phase-fine n now none fine = refl
next_phase-fine n now (some e) fine =
    let good : successful (some e) ≡ true = ground arith in rw good refl

faulty-successful : (e : Option Error) → faulty e ≡ true → successful e ≡ false
faulty-successful none h = ground arith
faulty-successful (some e) h = ground arith

next_phase-closed :
    (n now : ℕ) (e : Option Error)
    → faulty e ≡ true
    → suc n < 5
    → next_phase new_breaker n e now ≡ closed (suc n)
unfolding next_phase
next_phase-closed n now e bad few =
    let fits : ltb (suc n) consecutive_failures ≡ true = ground arith in
    rw (faulty-successful e bad, fits) refl

next_phase-open :
    (n now : ℕ) (e : Option Error)
    → faulty e ≡ true
    → suc n ≡ 5
    → next_phase new_breaker n e now ≡ open_until (now + open_timeout)
unfolding next_phase
next_phase-open n now e bad last =
    let enough : ltb (suc n) consecutive_failures ≡ false = ground arith in
    rw (faulty-successful e bad, enough) refl

-- After a call that spares the breaker it is closed, and the calls that follow spare it.
spared-closed :
    (n now : ℕ) (a : Result Any) (rs : List (Result Any))
    → spared n (a ∷ rs) ≡ true
    → (refusal (error_of a) ≡ false)
      × (m : ℕ) × (next_phase new_breaker n (error_of a) now ≡ closed m)
      × (spared m rs ≡ true)
unfolding spared next_phase
spared-closed n now a rs p = elim (Bool-cases (faulty (error_of a))) [
  | inl bad ↦
      (ground arith, suc n, next_phase-closed n now (error_of a) bad (ground arith), ground arith)
  | inr fine ↦ (ground arith, 0, next_phase-fine n now (error_of a) fine, ground arith)
]

module _ (g : Gobreaker) (inner : Storage) where
  open g use {State}

  -- What is done with the answer of the library.
  received : Request → Result Any → Result Any
  received (put_request key body size content_type) r = returned (error_of (translated r))
  received (get_request key) r = returned_object (asserted (translated r))
  received (delete_request keys) r = returned (error_of (translated r))

  through-run :
      (q : Request) (s : State) (w : World)
      → through g inner q s w
        ≡ (let (r, s', w') = g.run new_breaker (ask inner q) s w in (received q r, s', w'))
  unfolding through received ask Breaker.put Breaker.get Breaker.delete_many execute
  through-run (put_request key body size content_type) s w = refl
  through-run (get_request key) s w = refl
  through-run (delete_request keys) s w = refl

  -- An answer that is not a refusal of a breaker comes through as it is.
  returned-through :
      (e : Option Error)
      → refusal e ≡ false
      → returned (error_of (translated (returned e))) ≡ returned e
  unfolding translated
  returned-through none h = refl
  returned-through (some e) h = rw h refl

  object-through :
      (r : Result StoredObject)
      → refusal (error_of r) ≡ false
      → returned_object (asserted (translated (returned_object r))) ≡ returned_object r
  unfolding translated
  object-through (ok o) h = refl
  object-through (err e) h = rw h refl

  error-returned : (e : Option Error) → error_of (returned e) ≡ e
  error-returned none = refl
  error-returned (some e) = refl

  error-object : (r : Result StoredObject) → error_of (returned_object r) ≡ error_of r
  error-object (ok o) = refl
  error-object (err e) = refl

  received-ask :
      (q : Request) (w : World)
      → refusal (error_of (ask inner q w).0) ≡ false
      → received q (ask inner q w).0 ≡ (ask inner q w).0
  unfolding received ask
  received-ask (put_request key body size content_type) w h =
      returned-through _ (ap refusal (sym (error-returned _)) ∙ h)
  received-ask (get_request key) w h = object-through _ (ap refusal (sym (error-object _)) ∙ h)
  received-ask (delete_request keys) w h =
      returned-through _ (ap refusal (sym (error-returned _)) ∙ h)

  module _ (d : Documented g) where
    -- One call behind a closed breaker.
    through-closed :
        (q : Request) (s : State) (w : World) (n : ℕ)
        → d.phase s ≡ closed n
        → let (r, s', w') = through g inner q s w in
          let (a, v) = ask inner q w in
          (r ≡ received q a) × (w' ≡ v) × (d.phase s' ≡ next_phase new_breaker n (error_of a) v.now)
    through-closed q s w n h =
        let (x, y, z) = d.admits new_breaker (ask inner q) s w n h in
        rw (through-run q s w) (ap (received q) x, y, z)

    guarded-directly :
        (qs : List Request) (s : State) (w : World) (n : ℕ)
        → d.phase s ≡ closed n
        → spared n (directly inner qs w).0 ≡ true
        → let (rs, s', w') = guarded g inner qs s w in (rs, w') ≡ directly inner qs w
    unfolding guarded directly
    guarded-directly [] s w n h p = refl
    guarded-directly (q ∷ qs) s w n h p =
        let (x, y, z) = through-closed q s w n h in
        let (a, v) = ask inner q w in
        let (fine, m, k, p') = spared-closed n v.now a (directly inner qs v).0 p in
        let same = x ∙ received-ask q w fine in
        let rest = guarded-directly qs (through g inner q s w).1 v m (z ∙ k) p' in
        rw (same, y) (ap (λ t. (a ∷ t.0, t.1)) rest)

    -- The last of five failures in a row opens the breaker.
    guarded-opens :
        (qs : List Request) (s : State) (w : World) (n : ℕ)
        → d.phase s ≡ closed n
        → n < 5
        → length qs + n ≡ 5
        → failing (directly inner qs w).0 ≡ true
        → let (rs, s', w') = guarded g inner qs s w in
          d.phase s' ≡ open_until (w'.now + open_timeout)
    unfolding guarded directly failing
    guarded-opens [] s w n h lt e f = ground arith
    guarded-opens (q ∷ []) s w n h lt e f =
        let (x, y, z) = through-closed q s w n h in
        rw y (
          z
          ∙ next_phase-open n (ask inner q w).1.now (error_of (ask inner q w).0) (ground arith)
              (omega arith))
    guarded-opens (q ∷ p ∷ qs) s w n h lt e f =
        let (x, y, z) = through-closed q s w n h in
        let v = (ask inner q w).1 in
        let rest =
          guarded-opens (p ∷ qs) (through g inner q s w).1 v (suc n)
            (z
              ∙ next_phase-closed n v.now (error_of (ask inner q w).0) (ground arith) (omega arith))
            (omega arith) (omega arith) (ground arith) in
        rw y rest

    received-unavailable :
        (q : Request) → received q (err (sentinel open_state)) ≡ err (wrap (sentinel unavailable))
    unfolding received translated is
    received-unavailable (put_request key body size content_type) = refl
    received-unavailable (get_request key) = refl
    received-unavailable (delete_request keys) = refl

    -- While fewer than five calls in a row fail, a storage behind a new breaker answers every call as it would
    -- without it, and leaves the same world: calls that find nothing or are given up by the client are
    -- no failures. None of its errors is one of a breaker.
    pub guarded-spared :
        (qs : List Request) (w : World)
        → spared 0 (directly inner qs w).0 ≡ true
        → let (rs, s', w') = guarded g inner qs (new_storage g) w in (rs, w') ≡ directly inner qs w
    guarded-spared qs w p = guarded-directly qs (new_storage g) w 0 (d.starts new_breaker) p

    -- After the first five calls have all failed, a call within thirty seconds is answered by
    -- ErrUnavailable and does not reach the storage: the world is as it was. An error that says that
    -- nothing was found, or that the client gave up, is no failure.
    pub through-opened :
        (qs : List Request) (w : World) (q : Request) (v : World)
        → length qs ≡ 5
        → failing (directly inner qs w).0 ≡ true
        → v.now < (guarded g inner qs (new_storage g) w).2.now + 30 * second
        → let (r, s', v') = through g inner q (guarded g inner qs (new_storage g) w).1 v in
          (r ≡ err (wrap (sentinel unavailable))) × (v' ≡ v)
    through-opened qs w q v l f t =
        let s = (guarded g inner qs (new_storage g) w).1 in
        let opened =
          guarded-opens qs (new_storage g) w 0 (d.starts new_breaker) (omega arith) (omega arith)
            f in
        let (x, y) = d.refuses new_breaker (ask inner q) s v _ opened t in
        rw (through-run q s v) (ap (received q) x ∙ received-unavailable q, y)
