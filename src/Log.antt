-- ===== src/Log.antt =====
-- utils/log/type.go and utils/log/adapter.go: levels, fields and the level that new adapters take.
-- A Go enumeration is an integer type, so `Level` (an int8) is the integers with names for a few.
pub mod Zap
pub mod Logrus
pub mod Agree
pub mod Levels
mod Tests
use Prim.Native.String.{String}
use text.Mathlib.Text.{◌==◌}
use chanjet.Common.{ℕ, Bool, true, false, ◌||◌, List, if◌then◌else◌}
use chanjet.Common.Int.{ℤ, pos, eqb_ℤ}
use chanjet.Common.Run.{Error}

abbrev pub Level : Type 0
Level = ℤ

abbrev pub level_debug : Level
level_debug = pos 0

abbrev pub level_info : Level
level_info = pos 1

abbrev pub level_warn : Level
level_warn = pos 2

abbrev pub level_error : Level
level_error = pos 3

abbrev pub level_fatal : Level
level_fatal = pos 4

abbrev pub level_panic : Level
level_panic = pos 5

abbrev pub level_invalid : Level
level_invalid = pos 6

-- A `switch` on a level: one result for each named level, and one for all others.
abbrev pub by_level {ℓ} : {A : Type ℓ} → Level → A → A → A → A → A → A → A → A
by_level l debug info warn error fatal panic other =
    if eqb_ℤ l level_debug
    then debug
    else if eqb_ℤ l level_info
    then info
    else if eqb_ℤ l level_warn
    then warn
    else if eqb_ℤ l level_error
    then error
    else if eqb_ℤ l level_fatal
    then fatal
    else if eqb_ℤ l level_panic
    then panic
    else other

unfoldable pub to_string : Level → String
to_string l = by_level l "debug" "info" "warn" "error" "fatal" "panic" "unknown"

unfoldable pub valid : Level → Bool
valid l = by_level l true true true true true true false

unfoldable pub upper_string : Level → String
upper_string l = by_level l "DEBUG" "INFO" "WARN" "ERROR" "FATAL" "PANIC" "UNKNOWN"

-- The values that the constructors of `Field` put behind `any`; a duration is in nanoseconds.
pub data Value : Type 0 where
  words : String → Value
  number : ℤ → Value
  truth : Bool → Value
  fault : Error → Value
  span : ℤ → Value
  moment : ℤ → Value

pub record Field : Type 0 where
  pub key : String
  pub val : Value

abbrev pub string_field : String → String → Field
string_field key val = record { key = key; val = words val }

abbrev pub int_field : String → ℤ → Field
int_field key val = record { key = key; val = number val }

abbrev pub bool_field : String → Bool → Field
bool_field key val = record { key = key; val = truth val }

abbrev pub error_field : Error → Field
error_field err = record { key = "error"; val = fault err }

abbrev pub duration_field : String → ℤ → Field
duration_field key val = record { key = key; val = span val }

abbrev pub time_field : String → ℤ → Field
time_field key val = record { key = key; val = moment val }

-- `LoggerType.valid`.
unfoldable pub valid_logger_type : String → Bool
valid_logger_type l =
    l == "default" || l == "zap" || l == "logrus" || l == "logstash" || l == "zerolog"

-- The package's level is under a lock; `set_global_level` and `get_level` are its two accesses.
unfoldable pub set_global_level : Level → Level → Level
set_global_level level current_level = level

unfoldable pub get_level : Level → Level
get_level current_level = current_level
