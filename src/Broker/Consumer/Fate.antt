-- ===== src/Broker/Consumer/Fate.antt =====
-- The fate of a delivery.
use gophprofile.Base.{
  pos, ℕ, ◌≤◌, ◌<◌, String, ◌≡◌, refl, ◌⊎◌, inl, inr, Bool, true, false, some, [], ◌∷◌, arith,
  length, count_if, leb, Bool-cases,
}
use gophprofile.Fault.{Error, is, non_retryable}
use gophprofile.Worker.Handler.{Message}
use gophprofile.Broker.Headers.{
  int64, header_attempts, max_int32, max_attempts, at-assign, header_int, attempt_number,
  is_final_attempt, retry_level_for_total,
}
use gophprofile.Broker.Publisher.{Post, publish}
use gophprofile.Broker.Consumer.{
  Delivery, Handled, Action, posted, acked, rejected, stuck, Conditions, message_of, handle,
  forwarded, reroute, process, exchange_retry, exchange_dead, routing_key_dead,
}

abbrev pub settles : Action → Bool
settles (posted p) = false
settles acked = true
settles rejected = true
settles stuck = false

reroute-settles :
    (c : Conditions) (x k : String) (d : Delivery) (n : ℕ)
    → count_if settles (reroute c x k d n) ≡ 1
unfolding reroute publish
reroute-settles c x k d n = ground arith

-- With a ladder that is not empty, every delivery is settled exactly once, by an acknowledgement or
-- by a rejection, whatever the handler and the broker do.
pub process-settles_once :
    (c : Conditions) (handler : Message → Handled) (d : Delivery)
    → 0 < length c.levels
    → count_if settles (process c handler d) ≡ 1
unfolding process
process-settles_once c handler d h = ground (
  arith,
  retry_level_for_total c.levels (message_of d).attempt h,
  reroute-settles c exchange_dead routing_key_dead d (message_of d).attempt,
  reroute-settles c exchange_retry (retry_level_for_total c.levels (message_of d).attempt h).0.key d
      (message_of d).attempt,
)

-- The counter that is written for a next delivery is read back, while it fits 32 bits.
pub header_int-forwarded :
    (d : Delivery) (n : ℕ)
    → 0 < n
    → n ≤ max_int32
    → header_int (forwarded d n).headers header_attempts ≡ some n
unfolding forwarded header_int
header_int-forwarded d n h g = ground (arith, at-assign header_attempts (int64 (pos n)) d.headers)

abbrev target : Bool → String
target true = exchange_dead
target false = exchange_retry

-- What was published for the delivery: one copy, with its attempt in the headers.
abbrev pub IsCopy : Delivery → Post → Type 0
IsCopy d p =
    (p.message ≡ forwarded d (attempt_number d.headers))
    × (p.exchange ≡ target (leb max_attempts (attempt_number d.headers)))

abbrev pub copy : String → String → Delivery → ℕ → Post
copy x k d n = record { exchange = x; key = k; message = forwarded d n }

-- The broker's confirmation of a message that it could route.
abbrev pub IsConfirmed : Conditions → Type 0
IsConfirmed c = (c.answer.acked ≡ true) × (c.answer.returned ≡ false)

pub reroute_cases :
    (c : Conditions) (x k : String) (d : Delivery) (n : ℕ)
    → let p = copy x k d n in
      ((reroute c x k d n ≡ posted p ∷ acked ∷ []) × IsConfirmed c)
      ⊎ (reroute c x k d n ≡ posted p ∷ rejected ∷ [])
      ⊎ (reroute c x k d n ≡ rejected ∷ [])
unfolding reroute publish
reroute_cases c x k d n = ground arith

-- After an error that may be retried nothing is lost: the delivery is acknowledged only beside a copy
-- that the broker has confirmed, for the retry ladder before the fifth attempt and for the dead
-- letters from the fifth on; else it is rejected, with or without such a copy.
pub process_keeps_message :
    (c : Conditions) (handler : Message → Handled) (d : Delivery) (e : Error)
    → 0 < length c.levels
    → handle handler (message_of d) ≡ some e
    → is e non_retryable ≡ false
    → ((p : Post) × IsCopy d p
        × (((process c handler d ≡ posted p ∷ acked ∷ []) × IsConfirmed c)
            ⊎ (process c handler d ≡ posted p ∷ rejected ∷ [])
            ⊎ (process c handler d ≡ rejected ∷ [])))
unfolding process message_of is_final_attempt
process_keeps_message c handler d e h f g =
    let n = attempt_number d.headers in
    let (l, q) = retry_level_for_total c.levels n h in
    elim (Bool-cases (leb max_attempts n)) [
      | inl last ↦ (
        copy exchange_dead routing_key_dead d n,
        (refl, rw last),
        rw (f, g, last) (reroute_cases c exchange_dead routing_key_dead d n),
      )
      | inr more ↦ (
        copy exchange_retry l.key d n,
        (refl, rw more),
        rw (f, g, more, q) (reroute_cases c exchange_retry l.key d n),
      )
    ]
