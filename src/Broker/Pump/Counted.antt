-- ===== src/Broker/Pump/Counted.antt =====
-- Consumer.Consume of internal/broker/consumer.go: where each delivery is that the pump has taken.
use gophprofile.Base.{
  ℕ, zero, suc, ◌+◌, ◌≤◌, ◌<◌, ◌≡◌, refl, ap, subst, Bool, true, Option, none, some, List, [], ◌∷◌,
  All, arith, count_if, length, map, ◌==◌, if◌then◌else◌, Turns, here, there, sum_of, Turns-sum_of,
}
use gophprofile.Fault.{Error}
use gophprofile.Broker.Consumer.{Action}
use gophprofile.Broker.Consumer.Fate.{settles, process-settles_once}
use gophprofile.Broker.Pump.{
  Work, Worker, idle, gone, busy, Pump, waiting, holding, stopped, returned, System, IsGone, Step,
  cancel, receive, stop_cancelled, stop_closed, stop_deliveries, hand, drop, finish, leave,
  give_back, idle_workers, consume, Reach, begin, next,
}

abbrev pub times : ℕ → List ℕ → ℕ
times t = count_if (λ x. x == t)

abbrev pub tags : List (ℕ × List Action) → List ℕ
tags = map (λ p. p.0)

abbrev one_if : ℕ → ℕ → ℕ
one_if t x = if x == t then 1 else 0

abbrev held_by : ℕ → Worker → ℕ
held_by t idle = 0
held_by t gone = 0
held_by t (busy x) = one_if t x

abbrev pub held : ℕ → List Worker → ℕ
held t = sum_of (held_by t)

abbrev in_pump : ℕ → Pump → ℕ
in_pump t waiting = 0
in_pump t (holding x) = one_if t x
in_pump t (stopped o) = 0
in_pump t (returned o) = 0

-- At most one delivery is left, and only after the context has ended; an error leaves none.
abbrev pub LeftBy : Option Error → Bool → List ℕ → Type 0
LeftBy none cancelled left = (cancelled ≡ true) × (length left ≤ 1)
LeftBy (some e) cancelled left = left ≡ []

abbrev Leaves : Pump → Bool → List ℕ → List Worker → Type 0
Leaves waiting c l ws = l ≡ []
Leaves (holding t) c l ws = l ≡ []
Leaves (stopped o) c l ws = LeftBy o c l
Leaves (returned o) c l ws = LeftBy o c l × All IsGone ws

abbrev pub IsSettled : ℕ × List Action → Type 0
IsSettled (t, actions) = count_if settles actions ≡ 1

record Inv (s : System) : Type 0 where
  counted :
      (t : ℕ)
      → times t s.taken
        ≡ times t (tags s.processed) + held t s.workers + in_pump t s.pump + times t s.left
  leaves : Leaves s.pump s.cancelled s.left s.workers
  settled : All IsSettled s.processed

LeftBy-cancel : (o : Option Error) (c : Bool) (l : List ℕ) → LeftBy o c l → LeftBy o true l
LeftBy-cancel none c l h = (refl, h.1)
LeftBy-cancel (some e) c l h = h

Leaves-cancel :
    (p : Pump) (c : Bool) (l : List ℕ) (ws : List Worker) → Leaves p c l ws → Leaves p true l ws
Leaves-cancel waiting c l ws h = h
Leaves-cancel (holding t) c l ws h = h
Leaves-cancel (stopped o) c l ws h = LeftBy-cancel o c l h
Leaves-cancel (returned o) c l ws h = (LeftBy-cancel o c l h.0, h.1)

-- A worker of those that are gone does not turn from anything else.
Turns-gone : {a b : Worker} {ws vs : List Worker} → Turns a b ws vs → All IsGone ws → a ≡ gone
Turns-gone here h = h.0
Turns-gone (there m) h = Turns-gone m h.1

-- What the workers do leaves the pump's part as it is, while some worker is not gone.
Leaves-turn :
    {a b : Worker} {ws vs : List Worker} (p : Pump) (c : Bool) (l : List ℕ)
    → (a ≡ gone → ⊥)
    → Turns a b ws vs
    → Leaves p c l ws
    → Leaves p c l vs
Leaves-turn waiting c l n m h = h
Leaves-turn (holding t) c l n m h = h
Leaves-turn (stopped o) c l n m h = h
Leaves-turn (returned o) c l n m h = absurd (n (Turns-gone m h.1))

module _ (s : System) (v : Inv s) where
  standing : (p : Pump) → s.pump ≡ p → Leaves p s.cancelled s.left s.workers
  standing p e = subst (λ q. Leaves q s.cancelled s.left s.workers) e v.leaves

  -- The pump comes to a stand with nothing more in its hands.
  stop-Inv :
      (o : Option Error)
      → s.pump ≡ waiting
      → LeftBy o s.cancelled s.left
      → Inv (record s { pump = stopped o })
  stop-Inv o e l = record {
    counted = λ x. omega (arith, v.counted x, ap (in_pump x) e);
    leaves = l;
    settled = v.settled;
  }

Step-Inv :
    {k : Work} {s u : System}
    → ((t : ℕ) → 0 < length (k.conditions t).levels)
    → Step k s u
    → Inv s
    → Inv u
Step-Inv {s = s} h (cancel e) v = record {
  counted = v.counted;
  leaves = Leaves-cancel s.pump s.cancelled s.left s.workers v.leaves;
  settled = v.settled;
}
Step-Inv {s = s} h (receive t e) v = record {
  counted = λ x. omega (arith, v.counted x, ap (in_pump x) e);
  leaves = standing s v waiting e;
  settled = v.settled;
}
Step-Inv {s = s} h (stop_cancelled e c) v =
    stop-Inv s v none e (c, omega (arith, ap length (standing s v waiting e)))
Step-Inv {s = s} h (stop_closed x e) v = stop-Inv s v _ e (standing s v waiting e)
Step-Inv {s = s} h (stop_deliveries e) v = stop-Inv s v _ e (standing s v waiting e)
Step-Inv {s = s} h (hand {t} e m) v = record {
  counted = λ x. omega (arith, v.counted x, ap (in_pump x) e, Turns-sum_of (held_by x) m);
  leaves = standing s v (holding t) e;
  settled = v.settled;
}
Step-Inv {s = s} h (drop {t} e c) v = record {
  counted = λ x. omega (arith, v.counted x, ap (in_pump x) e);
  leaves = (c, omega (arith, ap length (standing s v (holding t) e)));
  settled = v.settled;
}
Step-Inv {k} {s} h (finish {t} m) v = record {
  counted = λ x. omega (arith, v.counted x, Turns-sum_of (held_by x) m);
  leaves = Leaves-turn s.pump s.cancelled s.left (λ e. cc) m v.leaves;
  settled = (process-settles_once (k.conditions t) (k.handler t) (k.delivery t) (h t), v.settled);
}
Step-Inv {s = s} h (leave e m) v = record {
  counted = λ x. omega (arith, v.counted x, ap (in_pump x) e, Turns-sum_of (held_by x) m);
  leaves = Leaves-turn s.pump s.cancelled s.left (λ e. cc) m v.leaves;
  settled = v.settled;
}
Step-Inv {s = s} h (give_back {o} e g) v = record {
  counted = λ x. omega (arith, v.counted x, ap (in_pump x) e);
  leaves = (standing s v (stopped o) e, g);
  settled = v.settled;
}

empty_handed : (t n : ℕ) → held t (idle_workers n) ≡ 0
empty_handed t zero = refl
empty_handed t (suc n) = omega (arith, empty_handed t n)

All-gone : (t : ℕ) (ws : List Worker) → All IsGone ws → held t ws ≡ 0
All-gone t [] h = refl
All-gone t (w ∷ ws) h = omega (arith, ap (held_by t) h.0, All-gone t ws h.1)

consume-Inv : (qos consumed : Option Error) (n : ℕ) → Inv (consume qos consumed n)
unfolding consume
consume-Inv (some e) c n = record { counted = λ t. refl; leaves = (refl, tt); settled = tt }
consume-Inv none (some e) n = record { counted = λ t. refl; leaves = (refl, tt); settled = tt }
consume-Inv none none n = record {
  counted = λ t. omega (arith, empty_handed t n);
  leaves = refl;
  settled = tt;
}

module _ (k : Work) (h : (t : ℕ) → 0 < length (k.conditions t).levels) where
  Reach-Inv : {s u : System} → Reach k s u → Inv s → Inv u
  Reach-Inv begin v = v
  Reach-Inv (next r m) v = Step-Inv h m (Reach-Inv r v)

  -- When Consume has returned, every delivery that was taken has been processed as often as it was
  -- taken, but for one at most that is left to the broker. Where Consume returns an error nothing is
  -- left, and it returns no error only after the context has ended. All that was processed has been
  -- acknowledged or rejected once. No ladder of retries is empty.
  pub consume-processed :
      (qos consumed : Option Error) (prefetch : ℕ) (s : System) (o : Option Error)
      → Reach k (consume qos consumed prefetch) s
      → s.pump ≡ returned o
      → ((t : ℕ) → times t s.taken ≡ times t (tags s.processed) + times t s.left)
        × LeftBy o s.cancelled s.left
        × All IsSettled s.processed
  consume-processed qos consumed prefetch s o r e =
      let v = Reach-Inv r (consume-Inv qos consumed prefetch) in
      let (l, g) = standing s v (returned o) e in
      (λ t. omega (arith, v.counted t, ap (in_pump t) e, All-gone t s.workers g), l, v.settled)
