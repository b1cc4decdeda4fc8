-- ===== src/Broker/Pump.antt =====
-- Consumer.Consume of internal/broker/consumer.go: the pump, which hands deliveries to the workers, and
-- the workers, one goroutine for each delivery that the broker gives without an acknowledgement. The
-- steps of the goroutines interleave in any order, and where a `select` has several cases ready, any of
-- them may be taken. A delivery is known by its tag. Lists of what has happened have the last first.
pub mod Counted
pub mod Ended
use gophprofile.Base.{
  ℕ, zero, suc, ◌≡◌, Bool, true, false, Option, none, some, List, [], ◌∷◌, All, Turns,
}
use gophprofile.Fault.{Error, foreign, wrap}
use gophprofile.Worker.Handler.{Message}
use gophprofile.Broker.Consumer.{Delivery, Handled, Action, Conditions, process}

-- The deliveries, the circumstances of their processing and what the handler does with them.
pub record Work : Type 0 where
  pub delivery : ℕ → Delivery
  pub conditions : ℕ → Conditions
  pub handler : ℕ → Message → Handled

-- A worker is gone when the queue of jobs is closed and it has none.
pub data Worker : Type 0 where
  idle gone : Worker
  busy : (tag : ℕ) → Worker

-- The pump waits in the outer `select`, or holds a delivery in the inner one; it has stopped with an
-- error or none, and Consume has returned it. The queue of jobs is closed once it has stopped.
pub data Pump : Type 0 where
  waiting : Pump
  holding : (tag : ℕ) → Pump
  stopped returned : Option Error → Pump

pub record System : Type 0 where
  pub pump : Pump
  pub workers : List Worker
  pub cancelled : Bool
  pub taken : List ℕ
  pub processed : List (ℕ × List Action)
  pub left : List ℕ  -- taken by the pump, and given to no worker

abbrev pub IsGone : Worker → Type 0
IsGone w = w ≡ gone

pub data Step (k : Work) (s : System) : System → Type 0 where
  cancel : s.cancelled ≡ false → Step k s (record s { cancelled = true })
  receive :
      (t : ℕ) → s.pump ≡ waiting → Step k s (record s { pump = holding t; taken = t ∷ s.taken })
  stop_cancelled :
      s.pump ≡ waiting → s.cancelled ≡ true → Step k s (record s { pump = stopped none })
  stop_closed :
      (e : Error) → s.pump ≡ waiting → Step k s (record s { pump = stopped (some (wrap e)) })
  stop_deliveries : s.pump ≡ waiting → Step k s (record s { pump = stopped (some (foreign 0)) })
  hand :
      {t : ℕ} {ws : List Worker}
      → s.pump ≡ holding t
      → Turns idle (busy t) s.workers ws
      → Step k s (record s { pump = waiting; workers = ws })
  drop :
      {t : ℕ}
      → s.pump ≡ holding t
      → s.cancelled ≡ true
      → Step k s (record s { pump = stopped none; left = t ∷ s.left })
  finish :
      {t : ℕ} {ws : List Worker}
      → Turns (busy t) idle s.workers ws
      → Step k s (record s {
        workers = ws;
        processed = (t, process (k.conditions t) (k.handler t) (k.delivery t)) ∷ s.processed;
      })
  leave :
      {o : Option Error} {ws : List Worker}
      → s.pump ≡ stopped o
      → Turns idle gone s.workers ws
      → Step k s (record s { workers = ws })
  give_back :
      {o : Option Error}
      → s.pump ≡ stopped o
      → All IsGone s.workers
      → Step k s (record s { pump = returned o })

abbrev idle_workers : ℕ → List Worker
idle_workers zero = []
idle_workers (suc n) = idle ∷ idle_workers n

abbrev pub started : ℕ → System
started prefetch = record {
  pump = waiting;
  workers = idle_workers prefetch;
  cancelled = false;
  taken = [];
  processed = [];
  left = [];
}

-- Consume up to its first wait: the answers to Qos and to Consume of the channel.
unfoldable pub consume : (qos consumed : Option Error) (prefetch : ℕ) → System
consume (some e) consumed prefetch = record (started 0) { pump = returned (some (wrap e)) }
consume none (some e) prefetch = record (started 0) { pump = returned (some (wrap e)) }
consume none none prefetch = started prefetch

pub data Reach (k : Work) (s : System) : System → Type 0 where
  begin : Reach k s s
  next : {t u : System} → Reach k s t → Step k t u → Reach k s u

-- A run of a number of steps.
pub data Run (k : Work) (s : System) : ℕ → System → Type 0 where
  none_yet : Run k s 0 s
  one_more : {n : ℕ} {t u : System} → Run k s n t → Step k t u → Run k s (suc n) u
