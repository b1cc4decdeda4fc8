-- ===== src/Broker/Consumer/Ladder.antt =====
-- The way of a message whose handler keeps failing, over the retry ladder to the dead letters.
use gophprofile.Base.{
  ℕ, zero, suc, ◌+◌, ◌-◌, ◌≤◌, ◌<◌, String, ◌≡◌, ◌∙◌, inl, inr, true, false, Option, none, some,
  List, [], ◌∷◌, arith, length, if◌then◌else◌, leb, str_eq, Bool-cases,
}
use native.Mathlib.Numerals.{add-one}
use gophprofile.Fault.{Error, is, non_retryable}
use gophprofile.Worker.Handler.{Message}
use gophprofile.Broker.Headers.{
  Table, RetryLevel, header_attempts, max_attempts, header_int, attempt_number, is_final_attempt,
  retry_level_for_total, attempt_number-counted,
}
use gophprofile.Broker.Publisher.{Post, publish}
use gophprofile.Broker.Consumer.{
  Delivery, Handled, Action, posted, acked, Conditions, message_of, handle, forwarded, reroute,
  process, exchange_retry, exchange_dead, routing_key_dead,
}
use gophprofile.Broker.Consumer.Fate.{copy, header_int-forwarded}

-- A broker and a connection that do what they should, within the limits.
pub record IsHealthy (c : Conditions) : Type 0 where
  pub ladder : 0 < length c.levels
  pub unexpired : c.expired ≡ false
  pub ready : c.publisher.ready ≡ true
  pub sent : c.answer.send ≡ none
  pub in_time : c.answer.in_time ≡ true
  pub acked : c.answer.acked ≡ true
  pub routed : c.answer.returned ≡ false

-- `redeliver` is what the broker does to the headers while a message waits in a retry queue.
module _ (redeliver : Table → Table) (c : Conditions) (handler : Message → Handled) where
  unfoldable pub redelivered : Post → Delivery
  redelivered p = record p.message { headers = redeliver p.message.headers }

  confirmed_post : List Action → Option Post
  confirmed_post (posted p ∷ acked ∷ []) = some p
  confirmed_post _ = none

  abbrev one_more : Option ℕ → Option ℕ
  one_more none = none
  one_more (some k) = some (suc k)

  -- How often the handler runs until the message reaches the dead letters; `none` where it does not
  -- within so many deliveries, or is settled otherwise.
  unfoldable pub runs : ℕ → Delivery → Option ℕ
  unfolding confirmed_post redelivered
  runs zero d = none
  runs (suc n) d = elim (confirmed_post (process c handler d)) [
    | none ↦ none
    | some p ↦ if str_eq p.exchange exchange_dead then some 1 else one_more (runs n (redelivered p))
  ]

reroute_healthy :
    (c : Conditions) (x k : String) (d : Delivery) (n : ℕ)
    → IsHealthy c
    → reroute c x k d n ≡ posted (copy x k d n) ∷ acked ∷ []
unfolding reroute publish
reroute_healthy c x k d n h = ground arith

module _ (redeliver : Table → Table) (c : Conditions) (handler : Message → Handled)
    (counted : (t : Table)
      → header_int (redeliver t) header_attempts ≡ header_int t header_attempts)
    (failing : (m : Message)
      → (e : Error) × (handle handler m ≡ some e) × (is e non_retryable ≡ false))
    (healthy : IsHealthy c) where
  process_last :
      (d : Delivery)
      → leb max_attempts (attempt_number d.headers) ≡ true
      → process c handler d
        ≡ posted (copy exchange_dead routing_key_dead d (attempt_number d.headers)) ∷ acked ∷ []
  unfolding process message_of is_final_attempt
  process_last d last =
      let (e, f, g) = failing (message_of d) in
      rw (f, g, last)
        (reroute_healthy c exchange_dead routing_key_dead d (attempt_number d.headers) healthy)

  process_more :
      (d : Delivery)
      → leb max_attempts (attempt_number d.headers) ≡ false
      → (l : RetryLevel) × (process c handler d
          ≡ posted (copy exchange_retry l.key d (attempt_number d.headers)) ∷ acked ∷ [])
  unfolding process message_of is_final_attempt
  process_more d more =
      let (e, f, g) = failing (message_of d) in
      let (l, q) = retry_level_for_total c.levels (attempt_number d.headers) healthy.ladder in
      (
        l,
        rw (f, g, more, q)
            (reroute_healthy c exchange_retry l.key d (attempt_number d.headers) healthy),
      )

  next_number :
      (l : RetryLevel) (d : Delivery) (a : ℕ)
      → 0 < a
      → a ≤ max_attempts
      → attempt_number (redelivered redeliver c handler (copy exchange_retry l.key d a)).headers
        ≡ suc a
  unfolding redelivered
  next_number l d a h g =
      attempt_number-counted _ a
        (counted (forwarded d a).headers ∙ header_int-forwarded d a h (omega arith))
      ∙ add-one a

  -- A message whose handler always fails in a way that may be retried is handled until its fifth
  -- attempt and then reaches the dead letters: from attempt `a` that takes 6 - a deliveries. The broker
  -- is healthy and keeps the counter of a message that it delays.
  pub runs-attempts :
      (n a : ℕ) (d : Delivery)
      → attempt_number d.headers ≡ a
      → 0 < a
      → a ≤ max_attempts
      → max_attempts < n + a
      → runs redeliver c handler n d ≡ some (suc max_attempts - a)
  unfolding runs
  runs-attempts zero a d e h g f = absurd (omega arith)
  runs-attempts (suc n) a d e h g f = elim (Bool-cases (leb max_attempts a)) [
    | inl last ↦ rw (process_last d (rw e last), runs) (ground arith)
    | inr more ↦
        let (l, q) = process_more d (rw e more) in
        let next =
          redelivered redeliver c handler
            (copy exchange_retry l.key d (attempt_number d.headers)) in
        let ih =
          runs-attempts n (suc a) next (rw e (next_number l d a h g)) (omega arith) (ground arith)
            (omega arith) in
        rw (q, runs, ih) (ground arith)
  ]
