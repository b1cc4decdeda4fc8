-- ===== src/Tests/Guard.antt =====
-- The theorems on internal/breaker at a breaker that does what is documented.
use gophprofile.Base.{
  ltb, [], ◌∷◌, List, ◌≡◌, refl, none, true, if◌then◌else◌, arith, str_eq, ◌<◌, ◌+◌,
}
use gophprofile.Fault.{
  Result, err, sentinel, foreign, wrap, not_found, unavailable, open_state, error_of, is,
}
use gophprofile.World.{World, St}
use gophprofile.Breaker
use gophprofile.Breaker.{Any, Settings, Gobreaker, Storage, new_storage}
use gophprofile.Breaker.Guarded.{
  Phase, closed, open_until, half_open, next_phase, Documented, Request, get_request, directly,
  through, guarded,
}
use gophprofile.Breaker.Laws.{spared, failing, guarded-spared, through-opened}
use gophprofile.Tests.Data.{world_one}

unfoldable run_at : Settings → Phase → St (Result Any) → World → Result Any × Phase × World
run_at c (closed n) m w = let (r, v) = m w in (r, next_phase c n (error_of r) v.now, v)
run_at c (open_until t) m w =
    if ltb w.now t
    then (err (sentinel open_state), open_until t, w)
    else (let (r, v) = m w in (r, next_phase c 0 (error_of r) v.now, v))
run_at c half_open m w = let (r, v) = m w in (r, next_phase c 0 (error_of r) v.now, v)

abbrev library : Gobreaker
library = record { State = Phase; fresh = λ c. closed 0; run = λ c m s w. run_at c s m w }

library-Documented : Documented library
unfolding run_at
library-Documented = record {
  phase = λ s. s;
  starts = λ c. refl;
  admits = λ c m s w n h. rw h (refl, refl, refl);
  refuses =
      λ c m s w t h l. let early : ltb w.now t ≡ true = ground arith in rw (h, early) (refl, refl);
}

-- A storage that is out of order for one key, and has nothing else.
abbrev broken : Storage
broken = record {
  put = λ key body size content_type w. (none, w);
  get = λ key w. (err (if str_eq key "x" then foreign 3 else sentinel not_found), w);
  delete_many = λ keys w. (none, w);
}

abbrev failures : List Request
failures =
    get_request "x" ∷ get_request "x" ∷ get_request "x" ∷ get_request "x" ∷ get_request "x" ∷ []

-- Five failures, with a miss before the last.
abbrev mixed : List Request
mixed =
    get_request "x"
    ∷ get_request "x"
    ∷ get_request "x"
    ∷ get_request "x"
    ∷ get_request "y"
    ∷ get_request "x"
    ∷ []

mixed-spared : spared 0 (directly broken mixed world_one).0 ≡ true
unfolding spared directly Breaker.Guarded.ask is
mixed-spared = refl

guarded-spared_example :
    let (rs, s', w') = guarded library broken mixed (new_storage library) world_one in
    (rs, w') ≡ directly broken mixed world_one
guarded-spared_example =
    guarded-spared library broken library-Documented mixed world_one mixed-spared

all_failed : failing (directly broken failures world_one).0 ≡ true
unfolding failing directly Breaker.Guarded.ask is
all_failed = refl

soon :
    world_one.now
    < (guarded library broken failures (new_storage library) world_one).2.now + 30000000000
unfolding guarded through run_at
soon = omega arith

through-opened_example :
    let (r, s', v') =
      through library broken
        (get_request "y")
        (guarded library broken failures (new_storage library) world_one).1
        world_one in
    (r ≡ err (wrap (sentinel unavailable))) × (v' ≡ world_one)
through-opened_example =
    through-opened library broken library-Documented failures world_one (get_request "y") world_one
      refl all_failed soon
