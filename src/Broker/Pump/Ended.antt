-- ===== src/Broker/Pump/Ended.antt =====
-- Consumer.Consume of internal/broker/consumer.go: its end, once the pump has stopped.
use gophprofile.Base.{
  ℕ, suc, ◌+◌, ◌*◌, ◌≤◌, ◌≡◌, ◌⊎◌, inl, inr, refl, ap, Bool, true, false, Option, List, [], ◌∷◌,
  All, arith, length, Turns, here, there, sum_of, Turns-sum_of,
}
use gophprofile.Fault.{Error}
use gophprofile.Broker.Pump.{
  Work, Worker, idle, gone, busy, Pump, waiting, holding, stopped, returned, System, IsGone, Step,
  cancel, receive, stop_cancelled, stop_closed, stop_deliveries, hand, drop, finish, leave,
  give_back, Run, none_yet, one_more,
}

-- The steps that a worker has before it when the queue of jobs is closed.
abbrev steps_of : Worker → ℕ
steps_of idle = 1
steps_of gone = 0
steps_of (busy t) = 2

abbrev all_steps : List Worker → ℕ
all_steps = sum_of steps_of

abbrev last_step : Pump → ℕ
last_step (stopped o) = 1
last_step p = 0

abbrev signal : Bool → ℕ
signal true = 0
signal false = 1

abbrev ahead : System → ℕ
ahead s = all_steps s.workers + last_step s.pump + signal s.cancelled

-- The pump has stopped with this outcome, or Consume has returned it.
abbrev pub Stopped : Option Error → Pump → Type 0
Stopped o p = (p ≡ stopped o) ⊎ (p ≡ returned o)

all_steps-le : (ws : List Worker) → all_steps ws ≤ 2 * length ws
all_steps-le [] = omega arith
all_steps-le (idle ∷ ws) = omega (arith, all_steps-le ws)
all_steps-le (gone ∷ ws) = omega (arith, all_steps-le ws)
all_steps-le (busy t ∷ ws) = omega (arith, all_steps-le ws)

waiting-Stopped : (o : Option Error) (p : Pump) → p ≡ waiting → Stopped o p → ⊥
waiting-Stopped o p e (inl h) = cc
waiting-Stopped o p e (inr h) = cc

holding-Stopped : (o : Option Error) (t : ℕ) (p : Pump) → p ≡ holding t → Stopped o p → ⊥
holding-Stopped o t p e (inl h) = cc
holding-Stopped o t p e (inr h) = cc

stopped-Stopped :
    (o x : Option Error) (p : Pump) → p ≡ stopped x → Stopped o p → Stopped o (returned x)
stopped-Stopped o x p e (inl h) = inr (cc)
stopped-Stopped o x p e (inr h) = absurd (cc)

last_step-le : (p : Pump) → last_step p ≤ 1
last_step-le waiting = omega arith
last_step-le (holding t) = omega arith
last_step-le (stopped o) = omega arith
last_step-le (returned o) = omega arith

signal-le : (c : Bool) → signal c ≤ 1
signal-le true = omega arith
signal-le false = omega arith

few : (s : System) → last_step s.pump + signal s.cancelled ≤ 2
few s = omega (arith, last_step-le s.pump, signal-le s.cancelled)

-- A step after the pump has stopped keeps the outcome and has one step fewer ahead.
Step-ahead :
    {k : Work} {s u : System} (o : Option Error)
    → Step k s u
    → Stopped o s.pump
    → Stopped o u.pump × (suc (ahead u) ≤ ahead s)
Step-ahead {s = s} o (cancel e) h = (h, omega (arith, ap signal e))
Step-ahead {s = s} o (receive t e) h = absurd (waiting-Stopped o s.pump e h)
Step-ahead {s = s} o (stop_cancelled e c) h = absurd (waiting-Stopped o s.pump e h)
Step-ahead {s = s} o (stop_closed x e) h = absurd (waiting-Stopped o s.pump e h)
Step-ahead {s = s} o (stop_deliveries e) h = absurd (waiting-Stopped o s.pump e h)
Step-ahead {s = s} o (hand {t} e m) h = absurd (holding-Stopped o t s.pump e h)
Step-ahead {s = s} o (drop {t} e c) h = absurd (holding-Stopped o t s.pump e h)
Step-ahead {s = s} o (finish m) h = (h, omega (arith, Turns-sum_of steps_of m))
Step-ahead {s = s} o (leave e m) h = (h, omega (arith, Turns-sum_of steps_of m))
Step-ahead {s = s} o (give_back {o = x} e g) h =
    (stopped-Stopped o x s.pump e h, omega (arith, ap last_step e))

Run-ahead :
    {k : Work} {s u : System} {n : ℕ} (o : Option Error)
    → Run k s n u
    → Stopped o s.pump
    → Stopped o u.pump × (n + ahead u ≤ ahead s)
Run-ahead o none_yet h = (h, omega arith)
Run-ahead o (one_more r m) h =
    let (g, le) = Run-ahead o r h in let (g', lt) = Step-ahead o m g in (g', omega arith)

-- What is left for the workers to do.
data Remains (ws : List Worker) : Type 0 where
  nothing : All IsGone ws → Remains ws
  to_leave : (vs : List Worker) → Turns idle gone ws vs → Remains ws
  to_finish : (t : ℕ) (vs : List Worker) → Turns (busy t) idle ws vs → Remains ws

Remains-next : (w : Worker) (ws : List Worker) → Remains ws → Remains (w ∷ ws)
Remains-next idle ws r = to_leave (gone ∷ ws) here
Remains-next (busy t) ws r = to_finish t (idle ∷ ws) here
Remains-next gone ws (nothing h) = nothing (refl, h)
Remains-next gone ws (to_leave vs m) = to_leave (gone ∷ vs) (there m)
Remains-next gone ws (to_finish t vs m) = to_finish t (gone ∷ vs) (there m)

remains : (ws : List Worker) → Remains ws
remains [] = nothing tt
remains (w ∷ ws) = Remains-next w ws (remains ws)

module _ (k : Work) where
  go_on :
      (s : System) (o : Option Error)
      → s.pump ≡ stopped o
      → Remains s.workers
      → (u : System) × Step k s u
  go_on s o e (nothing h) = (_, give_back e h)
  go_on s o e (to_leave vs m) = (_, leave e m)
  go_on s o e (to_finish t vs m) = (_, finish m)

  not_returned :
      (s : System) (o : Option Error)
      → Stopped o s.pump
      → (s.pump ≡ returned o) ⊎ ((u : System) × Step k s u)
  not_returned s o (inl h) = inr (go_on s o h (remains s.workers))
  not_returned s o (inr h) = inl h

  -- Once the pump has stopped, Consume returns its outcome: in whatever order the workers and the rest
  -- take their steps there are two for each worker and two more at most, and as long as Consume has
  -- not returned, a step is possible.
  pub Stopped-returned :
      (s u : System) (o : Option Error) (n : ℕ)
      → Stopped o s.pump
      → Run k s n u
      → (n ≤ 2 * length s.workers + 2) × ((u.pump ≡ returned o) ⊎ ((x : System) × Step k u x))
  Stopped-returned s u o n h r =
      let (g, le) = Run-ahead o r h in
      (omega (arith, all_steps-le s.workers, few s), not_returned u o g)
