-- ===== src/Config/Reader.antt =====
-- internal/config/config.go: the reader of variables, which collects the errors of parsing.
use gophprofile.Base.{String, Bool, Option, none, some, List, [], ◌∷◌, ◌++◌, ℤ, if◌then◌else◌}
use gophprofile.Config.{Format, format_json, format_text, Problem, malformed, unknown_format}
use gophprofile.Config.Defaults.{Duration, Float}
use gophprofile.Config.Numbers.{parse_int, atoi, parse_bool, lower_eq}

-- os.LookupEnv: a variable that is not declared is `none`.
abbrev pub Env : Type 0
Env = String → Option String

-- What strconv.ParseFloat, time.ParseDuration and slog.Level.UnmarshalText answer, errors as `none`.
pub record Parsers : Type 0 where
  pub parse_float : String → Option Float
  pub parse_duration : String → Option Duration
  pub unmarshal_text : String → Option ℤ

-- A step of `load`: what it adds to the errors of the reader.
abbrev pub Reader : Type 0 → Type 0
Reader A = List Problem → A × List Problem

module _ {A : Type 0} where
  abbrev pub done : A → Reader A
  done a errs = (a, errs)

module _ {A B : Type 0} where
  infixl 10 ◌>>=◌
  abbrev pub ◌>>=◌ : Reader A → (A → Reader B) → Reader B
  ◌>>=◌ m f errs = let (a, errs') = m errs in f a errs'

module _ {A : Type 0} where
  -- The value of a parser, or the default with an error more.
  unfoldable pub parsed : Problem → A → Option A → Reader A
  parsed problem def none errs = (def, errs ++ problem ∷ [])
  parsed problem def (some a) errs = (a, errs)

  unfoldable pub declared : (String → Option A) → Problem → A → Option String → Reader A
  unfolding parsed
  declared parse problem def none errs = (def, errs)
  declared parse problem def (some v) errs = parsed problem def (parse v) errs

unfoldable pub or_default : String → Option String → String
or_default def none = def
or_default def (some v) = v

unfoldable pub str : Env → String → String → Reader String
unfolding or_default
str env key def errs = (or_default def (env key), errs)

unfoldable pub parse_format : String → Option Format
parse_format v =
    if lower_eq v "json"
    then some format_json
    else if lower_eq v "text"
    then some format_text
    else none

module _ (env : Env) where
  unfoldable pub integer : String → ℤ → Reader ℤ
  unfolding declared
  integer key def = declared atoi (malformed key) def (env key)

  unfoldable pub integer64 : String → ℤ → Reader ℤ
  unfolding declared
  integer64 key def = declared parse_int (malformed key) def (env key)

  unfoldable pub boolean : String → Bool → Reader Bool
  unfolding declared
  boolean key def = declared parse_bool (malformed key) def (env key)

  unfoldable pub format : String → Format → Reader Format
  unfolding declared parse_format
  format key def = declared parse_format (unknown_format key) def (env key)

module _ (parsers : Parsers) (env : Env) where
  unfoldable pub float : String → Float → Reader Float
  unfolding declared
  float key def = declared parsers.parse_float (malformed key) def (env key)

  unfoldable pub duration : String → Duration → Reader Duration
  unfolding declared
  duration key def = declared parsers.parse_duration (malformed key) def (env key)

  unfoldable pub level : String → ℤ → Reader ℤ
  unfolding declared
  level key def = declared parsers.unmarshal_text (malformed key) def (env key)
