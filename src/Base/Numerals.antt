-- ===== src/Base/Numerals.antt =====
-- strconv.Itoa, FormatInt and FormatFloat, as far as they are used, and strings.TrimSpace.
use Prim.Native.Char.{Char, code}
use Prim.Native.Nat.{ℕ, zero, suc, ◌+◌, ◌*◌, ◌/◌, ◌%◌}
use Prim.Native.String.{String, ◌++◌}
use Prim.Native.String as Text
use mathlib.Core.Bool.{Bool, ◌&&◌, ◌||◌}
use mathlib.Core.List.{[], ◌∷◌}
use gophprofile.Base.Tests.{ltb, leb, ◌==◌, if◌then◌else◌}
use gophprofile.Base.Lists.{get_or}

unfoldable pub digit : ℕ → String
digit n = get_or ("0" ∷ "1" ∷ "2" ∷ "3" ∷ "4" ∷ "5" ∷ "6" ∷ "7" ∷ "8" ∷ []) n "9"

-- A number of at most as many digits as the fuel says.
unfoldable pub decimal : ℕ → ℕ → String
unfolding digit
decimal zero n = ""
decimal (suc fuel) n =
    let more = decimal fuel (n / 10) in if ltb n 10 then digit n else more ++ digit (n % 10)

-- A uint64 has at most 20 digits.
unfoldable pub itoa : ℕ → String
unfolding decimal
itoa n = decimal 20 n

-- FormatFloat(float64(n) / float64(unit), 'f', 1, 64), for a unit that is a power of two: the
-- tenths are rounded, a half to the even one.
unfoldable pub tenths : ℕ → ℕ → ℕ
tenths n unit =
    let q = (n * 10) / unit in
    let r = (n * 10) % unit in
    if ltb unit (r * 2) || (r * 2 == unit && q % 2 == 1) then q + 1 else q

unfoldable pub format_tenths : ℕ → ℕ → String
unfolding itoa tenths
format_tenths n unit = itoa (tenths n unit / 10) ++ ("." ++ digit (tenths n unit % 10))

-- unicode.IsSpace
abbrev pub is_space : ℕ → Bool
is_space c =
    (leb 9 c && leb c 13)
    || c == 32
    || c == 133
    || c == 160
    || c == 5760
    || (leb 8192 c && leb c 8202)
    || c == 8232
    || c == 8233
    || c == 8239
    || c == 8287
    || c == 12288

unfoldable pub trim_start : String → String
trim_start Text.[] = ""
trim_start (Text.◌∷◌ c s) =
    let rest = trim_start s in if is_space (code c) then rest else Text.◌∷◌ c s

abbrev after_char : Char → String → String
after_char c Text.[] = if is_space (code c) then "" else Text.◌∷◌ c Text.[]
after_char c (Text.◌∷◌ d s) = Text.◌∷◌ c (Text.◌∷◌ d s)

unfoldable pub trim_end : String → String
trim_end Text.[] = ""
trim_end (Text.◌∷◌ c s) = after_char c (trim_end s)

-- strings.TrimSpace
unfoldable pub trim_space : String → String
unfolding trim_start trim_end
trim_space s = trim_end (trim_start s)
