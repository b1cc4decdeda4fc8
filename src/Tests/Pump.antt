-- ===== src/Tests/Pump.antt =====
-- The theorems on Consume of internal/broker/consumer.go at a run of two workers.
use gophprofile.Base.{
  ℕ, ◌+◌, ◌*◌, ◌≡◌, ◌≤◌, ◌⊎◌, inl, refl, [], ◌∷◌, none, some, All, length, arith, true, ◌==◌,
  if◌then◌else◌, here, there,
}
use gophprofile.Fault.{foreign}
use gophprofile.Broker.Consumer.{returned}
use gophprofile.Broker.Pump as Pump
use gophprofile.Broker.Pump.{
  Work, Worker, idle, gone, busy, System, Step, cancel, receive, hand, drop, finish, leave,
  give_back, started, consume, Reach, begin, next, Run, none_yet, one_more,
}
use gophprofile.Broker.Pump.Counted.{times, tags, LeftBy, IsSettled, consume-processed}
use gophprofile.Broker.Pump.Ended.{Stopped-returned}
use gophprofile.Tests.Broker.{delivery, conditions}

abbrev work : Work
work = record {
  delivery = λ t. delivery;
  conditions = λ t. conditions;
  handler = λ t m. returned (if t == 8 then some (foreign 1) else none);
}

-- Two deliveries at work, and a third in the hands of the pump when the context ends.
abbrev busy_system : System
busy_system = record {
  pump = Pump.stopped none;
  workers = busy 7 ∷ busy 8 ∷ [];
  cancelled = true;
  taken = 9 ∷ 8 ∷ 7 ∷ [];
  processed = [];
  left = 9 ∷ [];
}

to_busy : Reach work (consume none none 2) busy_system
unfolding consume
to_busy =
    next
      (next
        (next
          (next (next (next (next begin (receive 7 refl)) (hand refl here)) (receive 8 refl))
            (hand refl (there here)))
          (receive 9 refl))
        (cancel refl))
      (drop refl refl)

abbrev to_end : (s : System) × Reach work (consume none none 2) s × (s.pump ≡ Pump.returned none)
to_end = (
  _,
  next
      (next
        (next (next (next to_busy (finish (there here))) (leave refl (there here))) (finish here))
        (leave refl here))
      (give_back refl (refl, (refl, tt))),
  refl,
)

consume-processed_example :
    ((t : ℕ) → times t to_end.0.taken ≡ times t (tags to_end.0.processed) + times t to_end.0.left)
    × LeftBy none to_end.0.cancelled to_end.0.left
    × All IsSettled to_end.0.processed
consume-processed_example =
    consume-processed work (λ t. omega arith) none none 2 to_end.0 none to_end.1 to_end.2

abbrev ending : (u : System) × Run work busy_system 3 u
ending = (
  _,
  one_more (one_more (one_more none_yet (finish (there here))) (leave refl (there here)))
      (finish here),
)

Stopped-returned_example :
    (3 ≤ 2 * length busy_system.workers + 2)
    × ((ending.0.pump ≡ Pump.returned none) ⊎ ((x : System) × Step work ending.0 x))
Stopped-returned_example = Stopped-returned work busy_system ending.0 none 3 (inl refl) ending.1
