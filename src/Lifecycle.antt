-- ===== src/Lifecycle.antt =====
-- What a process opens and closes: connections, servers and the goroutines that use them.
pub mod Balanced
use gophprofile.Base.{
  ℕ, Bool, true, false, not, ◌&&◌, ◌||◌, Option, none, some, List, [], ◌∷◌, ◌++◌, any, keep_if,
  ◌==◌, if◌then◌else◌,
}
use gophprofile.Fault.{Error, Result, ok, err, wrap}

-- `channel` is that of the declaration of the topology; `consumer` and `reconciler` are goroutines.
pub data Resource : Type 0 where
  signals pool transport connection channel tracing server metrics_server reconciler consumer :
      Resource

pub data Act : Type 0 where
  opened closed : Resource → Act

-- The result of a start, with what it has opened and closed on the way.
abbrev pub Life : Type 0 → Type 0
Life A = Result A × List Act

module _ {A : Type 0} where
  -- `if err := …; err != nil { … return }`, where the failed branch closes something first.
  abbrev pub unless : Option Error → List Act → Life A → Life A
  unless none acts go = go
  unless (some e) acts go = (err (wrap e), acts)

  abbrev pub after : List Act → Life A → Life A
  after acts (r, more) = (r, acts ++ more)

  -- `defer`
  abbrev pub deferred : List Act → Life A → Life A
  deferred acts (r, before) = (r, before ++ acts)

module _ {A B : Type 0} where
  -- A start: where it fails, something is closed and its error is wrapped.
  abbrev pub started : Life A → List Act → (A → Life B) → Life B
  started (err e, acts) undo k = (err (wrap e), acts ++ undo)
  started (ok a, acts) undo k = after acts (k a)

  -- `if err != nil { return err }`
  abbrev pub passing : Life A → (A → Life B) → Life B
  passing (err e, acts) k = (err e, acts)
  passing (ok a, acts) k = after acts (k a)

abbrev number : Resource → ℕ
number signals = 0
number pool = 1
number transport = 2
number connection = 3
number channel = 4
number tracing = 5
number server = 6
number metrics_server = 7
number reconciler = 8
number consumer = 9

abbrev pub same_resource : Resource → Resource → Bool
same_resource r q = number r == number q

-- Whether the first works with the second: the consumer and the reconciler call the database and the
-- broker, the consumer and the requests of the server the storage, channels stand on the connection,
-- and spans of what works are flushed when tracing ends.
abbrev pub uses : Resource → Resource → Bool
uses signals q = false
uses pool q = false
uses transport q = false
uses connection q = false
uses channel q = same_resource q connection
uses tracing q = false
uses server q =
    same_resource q pool
    || same_resource q transport
    || same_resource q connection
    || same_resource q tracing
uses metrics_server q = same_resource q pool
uses reconciler q = same_resource q pool || same_resource q connection || same_resource q tracing
uses consumer q =
    same_resource q pool
    || same_resource q transport
    || same_resource q connection
    || same_resource q tracing

abbrev is_open : Resource → List Resource → Bool
is_open r = any (same_resource r)

abbrev pub step : Act → List Resource → Option (List Resource)
step (opened r) open_now = if is_open r open_now then none else some (r ∷ open_now)
step (closed r) open_now =
    if is_open r open_now && not (any (λ q. uses q r) open_now)
    then some (keep_if (λ q. not (same_resource r q)) open_now)
    else none

-- What is open after the acts; `none` where one of them opens what is open, closes what is not, or
-- closes what something open works with.
unfoldable pub open_after : List Act → List Resource → Option (List Resource)
open_after [] open_now = some open_now
open_after (a ∷ acts) open_now = elim (step a open_now) [
  | none ↦ none
  | some rs ↦ open_after acts rs
]
