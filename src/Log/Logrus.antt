-- ===== src/Log/Logrus.antt =====
-- utils/log/logrus_adapter.go, with logrus as a parameter: what `NewEntry` and `WithFields` make, and
-- the values of the level constants. Adapters that come from one another by `With` share the logger;
-- its own level, which `SetLevel` sets, is state beside the adapter.
use Prim.Native.String.{String}
use chanjet.Common.{Bool, List, [], ◌∷◌, length, if◌then◌else◌}
use chanjet.Common as C
use chanjet.Common.Int.{ℤ, eqb_ℤ, ltb_ℤ, ◌<ℤ◌}
use chanjet.Common.Run.{Run, ok, err, invalid_level}
use chanjet.Common.Keyed.{assign}
use chanjet.Log.{
  Level, level_debug, level_info, level_warn, level_error, level_fatal, level_panic, level_invalid,
  by_level, valid, Value, Field, get_level,
}

-- `logrus.Fields`: a map from keys to values.
abbrev pub Fields : Type 0
Fields = List (String × Value)

abbrev pub put_field : Field → Fields → Fields
put_field f m = assign m f.key f.val

-- The loop over the fields: a later field of the same key wins.
unfoldable pub fields_of : List Field → Fields → Fields
fields_of [] m = m
fields_of (f ∷ fs) m = fields_of fs (put_field f m)

pub record LogrusLibrary (E : Type 0) : Type 0 where
  pub with_fields : Fields → E → E

pub record LogrusEntry (E : Type 0) : Type 0 where
  pub entry : E
  pub level : Level
  pub message : String

pub record LogrusAdapter (E : Type 0) : Type 0 where
  pub entry : E
  pub level : Level

-- The constants of logrus, in their documented order.
pub record LogrusLevels : Type 0 where
  pub panic : ℤ
  pub fatal : ℤ
  pub error : ℤ
  pub warn : ℤ
  pub info : ℤ
  pub debug : ℤ

pub record IsLogrusOrdered (c : LogrusLevels) : Type 0 where
  pub panic_first : c.panic <ℤ c.fatal
  pub fatal_next : c.fatal <ℤ c.error
  pub error_next : c.error <ℤ c.warn
  pub warn_next : c.warn <ℤ c.info
  pub info_next : c.info <ℤ c.debug

unfoldable pub convert_logrus_level : LogrusLevels → Level → ℤ
convert_logrus_level c l = by_level l c.debug c.info c.warn c.error c.fatal c.panic c.info

unfoldable pub logrus_to_level : LogrusLevels → ℤ → Level
logrus_to_level c l =
    if eqb_ℤ l c.debug
    then level_debug
    else if eqb_ℤ l c.info
    then level_info
    else if eqb_ℤ l c.warn
    then level_warn
    else if eqb_ℤ l c.error
    then level_error
    else if eqb_ℤ l c.fatal
    then level_fatal
    else if eqb_ℤ l c.panic
    then level_panic
    else level_invalid

unfoldable pub new_logrus_adapter : {E : Type 0} → Level → E → LogrusAdapter E
unfolding get_level
new_logrus_adapter current_level entry = record { entry = entry; level = get_level current_level }

module _ {E : Type 0} (logrus : LogrusLibrary E) where
  unfoldable pub logrus_log : LogrusAdapter E → Level → String → List Field → List (LogrusEntry E)
  unfolding fields_of
  logrus_log l level format fields =
      let bound =
        if C.◌==◌ (length fields) 0
        then l.entry
        else logrus.with_fields (fields_of fields []) l.entry in
      let entry : LogrusEntry E = record { entry = bound; level = level; message = format } in
      let one = entry ∷ [] in
      if ltb_ℤ level l.level then [] else by_level level one one one one one one []

  unfoldable pub logrus_with : List Field → LogrusAdapter E → LogrusAdapter E
  unfolding fields_of
  logrus_with fields l = record l { entry = logrus.with_fields (fields_of fields []) l.entry }

-- `SetLevel`, with the level of the logger.
unfoldable pub logrus_set_level :
    {E : Type 0} → LogrusLevels → Level → LogrusAdapter E → ℤ → LogrusAdapter E × ℤ × Run (Unit {0})
unfolding convert_logrus_level
logrus_set_level c level l logger_level =
    if valid level
    then (record l { level = level }, convert_logrus_level c level, ok tt)
    else (l, logger_level, err invalid_level)
