-- ===== src/Config/Numbers.antt =====
-- What internal/config/config.go uses of the packages strconv, strings and math: Atoi and ParseInt in
-- base 10 for 64 bits, ParseBool, ToLower, IsNaN and the comparisons of a float64 with 0 and 1.
use gophprofile.Base.{
  ℕ, ◌+◌, ◌-◌, ◌*◌, ◌/◌, ◌%◌, String, Bool, true, false, ◌&&◌, ◌||◌, not, Option, none, some, List,
  [], ◌∷◌, map, ltb, leb, ◌==◌, str_eq, if◌then◌else◌, ℤ, pos, neg, codes,
}
use gophprofile.Config.Defaults.{Float, one}

is_digit : ℕ → Bool
is_digit c = leb b'0' c && leb c b'9'

-- The digits of a natural number, `acc` being what is read already.
read_digits : ℕ → List ℕ → Option ℕ
unfolding is_digit
read_digits acc [] = some acc
read_digits acc (c ∷ cs) =
    let rest = read_digits (acc * 10 + (c - b'0')) cs in if is_digit c then rest else none

unsigned : List ℕ → Option ℕ
unfolding read_digits
unsigned [] = none
unsigned (c ∷ cs) = read_digits 0 (c ∷ cs)

abbrev int64_size : ℕ
int64_size = 9223372036854775808  -- 2 ^ 63

-- Out of the range of an int64, the parser fails.
positive_in_range : Option ℕ → Option ℤ
positive_in_range none = none
positive_in_range (some n) = if ltb n int64_size then some (pos n) else none

negative_in_range : Option ℕ → Option ℤ
negative_in_range none = none
negative_in_range (some n) = if leb n int64_size then some (neg n) else none

signed : List ℕ → Option ℤ
unfolding unsigned positive_in_range negative_in_range
signed [] = none
signed (c ∷ cs) =
    if c == b'-'
    then negative_in_range (unsigned cs)
    else if c == b'+'
    then positive_in_range (unsigned cs)
    else positive_in_range (unsigned (c ∷ cs))

unfoldable pub parse_int : String → Option ℤ
unfolding signed
parse_int s = signed (codes s)

unfoldable pub atoi : String → Option ℤ
unfolding parse_int
atoi s = parse_int s

abbrev among : String → List String → Bool
among s [] = false
among s (t ∷ ts) = str_eq s t || among s ts

unfoldable pub parse_bool : String → Option Bool
parse_bool s =
    if among s ("1" ∷ "t" ∷ "T" ∷ "TRUE" ∷ "true" ∷ "True" ∷ [])
    then some true
    else if among s ("0" ∷ "f" ∷ "F" ∷ "FALSE" ∷ "false" ∷ "False" ∷ [])
    then some false
    else none

-- Of a letter; no character outside ASCII has a lower case in `json` or `text`.
unfoldable pub lower : ℕ → ℕ
lower c = if leb b'A' c && leb c b'Z' then c + 32 else c

abbrev same : List ℕ → List ℕ → Bool
same [] [] = true
same [] (d ∷ ds) = false
same (c ∷ cs) [] = false
same (c ∷ cs) (d ∷ ds) = c == d && same cs ds

-- strings.ToLower(s) == t
unfoldable pub lower_eq : String → String → Bool
unfolding lower
lower_eq s t = same (map lower (codes s)) (codes t)

-- The top bit, and the others.
abbrev sign : Float → ℕ
sign f = f / 9223372036854775808

abbrev pub magnitude : Float → ℕ
magnitude f = f % 9223372036854775808

abbrev pub infinity : Float
infinity = 9218868437227405312

unfoldable pub is_nan : Float → Bool
is_nan f = ltb infinity (magnitude f)

unfoldable pub below_zero : Float → Bool
unfolding is_nan
below_zero f = not (is_nan f) && not (sign f == 0) && not (magnitude f == 0)

unfoldable pub above_one : Float → Bool
unfolding is_nan
above_one f = not (is_nan f) && sign f == 0 && ltb one (magnitude f)
