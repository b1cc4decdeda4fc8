-- ===== src/Broker/Topology/Delays.antt =====
-- internal/broker/topology.go: the names of delays, with what it uses of Duration.String and of
-- strings.TrimSuffix. Delays are natural numbers of nanoseconds.
use gophprofile.Base.{
  digit, itoa, ℕ, zero, suc, ◌*◌, ◌/◌, ◌%◌, String, Bool, false, not, ◌||◌, List, [], ◌∷◌, ltb,
  ◌==◌, str_eq, if◌then◌else◌,
}
use gophprofile.Broker.Headers.{RetryLevel}
use Prim.Native.String.{◌++◌}
use Prim.Native.String as Text

abbrev second : ℕ
second = 1000000000

abbrev minute : ℕ
minute = 60000000000

abbrev queue_retry_prefix : String
queue_retry_prefix = "avatars.retry."

abbrev retry_key_prefix : String
retry_key_prefix = "retry."

-- fmtFrac: the last digits of a number without the zeros at the end, after a point.
fraction : ℕ → ℕ → Bool → String → String
unfolding digit
fraction zero v print text = if print then "." ++ text else text
fraction (suc k) v print text =
    let print' = print || not (v % 10 == 0) in
    fraction k (v / 10) print' (if print' then digit (v % 10) ++ text else text)

whole_minutes : ℕ → String
unfolding itoa
whole_minutes m =
    if m == 0
    then ""
    else if ltb m 60
    then itoa m ++ "m"
    else itoa (m / 60) ++ ("h" ++ (itoa (m % 60) ++ "m"))

-- Duration.String
duration_string : ℕ → String
unfolding itoa fraction whole_minutes
duration_string u =
    if u == 0
    then "0s"
    else if ltb u 1000
    then itoa u ++ "ns"
    else if ltb u 1000000
    then itoa (u / 1000) ++ (fraction 3 u false "" ++ "µs")
    else if ltb u second
    then itoa (u / 1000000) ++ (fraction 6 u false "" ++ "ms")
    else whole_minutes (u / minute) ++ (itoa ((u / second) % 60) ++ (fraction 9 u false "" ++ "s"))

-- Where the text ends with `m0s`, without its `0s`.
trim : String → String
trim Text.[] = ""
trim (Text.◌∷◌ c s) =
    let rest = trim s in if str_eq (Text.◌∷◌ c s) "m0s" then "m" else Text.◌∷◌ c rest

unfoldable pub delay_name : ℕ → String
unfolding duration_string trim
delay_name d = trim (duration_string d)

abbrev pub default_retry_delays : List ℕ
default_retry_delays = 5 * second ∷ 30 * second ∷ 5 * minute ∷ []

unfoldable pub new_retry_levels : List ℕ → List RetryLevel
unfolding delay_name
new_retry_levels [] = []
new_retry_levels (delay ∷ delays) =
    record {
      queue = queue_retry_prefix ++ delay_name delay;
      key = retry_key_prefix ++ delay_name delay;
      ttl = delay;
    }
    ∷ new_retry_levels delays
