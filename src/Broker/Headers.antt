-- ===== src/Broker/Headers.antt =====
-- internal/broker/retry.go: the counters in the headers of a message, and the ladder of delays.
use gophprofile.Base.{
  ℕ, ◌+◌, ◌-◌, ◌≤◌, ◌<◌, String, ◌≡◌, Bool, ◌||◌, Option, none, some, List, arith, ℤ, pos, negsuc,
  ltb, leb, ◌==◌, str_eq, eq_iff, if◌then◌else◌, length, get_elem?, get_elem?-some,
}

-- amqp.Table, with the values that the code tells apart
mutual
  pub data Value : Type 0 where
    int64 int32 int16 int : ℤ → Value
    text : String → Value
    list : Values → Value
    table : Table → Value

  pub data Values : Type 0 where
    nil : Values
    cons : Value → Values → Values

  pub data Table : Type 0 where
    empty : Table
    field : String → Value → Table → Table

abbrev pub max_int32 : ℕ
max_int32 = 2147483647

abbrev pub arg_death : String
arg_death = "x-death"

abbrev pub header_attempts : String
header_attempts = "x-avatar-attempts"

abbrev count_field : String
count_field = "count"

abbrev pub max_attempts : ℕ
max_attempts = 5

unfoldable pub at : String → Table → Option Value
at k empty = none
at k (field j v t) = if str_eq j k then some v else at k t

-- headers[name] = value
unfoldable pub assign : String → Value → Table → Table
assign k v empty = field k v empty
assign k v (field j x t) = if str_eq j k then field k v t else field j x (assign k v t)

in_range : ℤ → Option ℕ
in_range (negsuc n) = none
in_range (pos n) = if n == 0 || ltb max_int32 n then none else some n

integer : Option Value → Option ℕ
unfolding in_range
integer (some (int64 v)) = in_range v
integer (some (int32 v)) = in_range v
integer (some (int16 v)) = in_range v
integer (some (int v)) = in_range v
integer _ = none

unfoldable pub header_int : Table → String → Option ℕ
unfolding integer
header_int headers name = integer (at name headers)

or_zero : Option ℕ → ℕ
or_zero none = 0
or_zero (some n) = n

sum_counts : Values → ℕ
unfolding header_int or_zero
sum_counts nil = 0
sum_counts (cons (table t) vs) = or_zero (header_int t count_field) + sum_counts vs
sum_counts (cons v vs) = sum_counts vs

deaths : Option Value → ℕ
unfolding sum_counts
deaths (some (list entries)) = sum_counts entries
deaths _ = 0

unfoldable pub death_count : Table → ℕ
unfolding deaths
death_count headers = deaths (at arg_death headers)

next_attempt : Option ℕ → ℕ → ℕ
next_attempt (some attempts) dead = attempts + 1
next_attempt none dead = dead + 1

unfoldable pub attempt_number : Table → ℕ
unfolding next_attempt header_int death_count
attempt_number headers = next_attempt (header_int headers header_attempts) (death_count headers)

unfoldable pub is_final_attempt : ℕ → Bool
is_final_attempt attempt = leb max_attempts attempt

-- retryLevel of topology.go
pub record RetryLevel : Type 0 where
  pub queue : String
  pub key : String
  pub ttl : ℕ

-- `none` is Go's panic: the ladder is empty. `attempt - 1` stops at 0, as the first test makes it.
unfoldable pub retry_level_for : List RetryLevel → ℕ → Option RetryLevel
retry_level_for levels attempt =
    get_elem? levels (if leb (length levels) (attempt - 1) then length levels - 1 else attempt - 1)

-- A counter that is read is in the range of positive 32-bit integers.
pub header_int_bounds :
    (t : Table) (name : String) (n : ℕ) → header_int t name ≡ some n → (0 < n) × (n ≤ max_int32)
unfolding header_int
header_int_bounds t name n h = ground arith

pub at-assign : (k : String) (v : Value) (t : Table) → at k (assign k v t) ≡ some v
unfolding at assign
at-assign k v empty = ground (arith, eq_iff k k)
at-assign k v (field j x t) = ground (arith, eq_iff k k, at-assign k v t)

-- The ladder has a step for every attempt, unless it is empty.
pub retry_level_for_total :
    (levels : List RetryLevel) (attempt : ℕ)
    → 0 < length levels
    → (l : RetryLevel) × (retry_level_for levels attempt ≡ some l)
unfolding retry_level_for
retry_level_for_total levels attempt h = get_elem?-some levels _ (ground arith)

-- The own counter decides, where there is one.
pub attempt_number-counted :
    (t : Table) (n : ℕ) → header_int t header_attempts ≡ some n → attempt_number t ≡ n + 1
unfolding attempt_number
attempt_number-counted t n h = ground arith
