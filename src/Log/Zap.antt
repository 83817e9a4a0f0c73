-- ===== src/Log/Zap.antt =====
-- utils/log/zap_adapter.go. What an adapter does to its `zap.Logger` is the list of the calls that it
-- makes; zap itself is a parameter: what `With` makes of a logger, the field that `zap.Any` makes, and
-- the values of the level constants.
use Prim.Native.String.{String}
use chanjet.Common.{List, [], ◌∷◌, map, length, ◌==◌, if◌then◌else◌}
use chanjet.Common.Int.{ℤ, eqb_ℤ, ltb_ℤ, ◌<ℤ◌}
use chanjet.Common.Run.{Run, ok, err, invalid_level}
use chanjet.Log.{
  Level, level_debug, level_info, level_warn, level_error, level_fatal, level_panic, level_invalid,
  by_level, valid, Value, Field, get_level,
}

pub record ZapLibrary (L Z : Type 0) : Type 0 where
  pub any : String → Value → Z
  pub with_fields : List Z → L → L

-- A call of one of the six methods of a logger.
pub record ZapEntry (L Z : Type 0) : Type 0 where
  pub logger : L
  pub level : Level
  pub message : String
  pub fields : List Z

pub record ZapAdapter (L : Type 0) : Type 0 where
  pub logger : L
  pub level : Level

module _ {L Z : Type 0} (zap : ZapLibrary L Z) where
  abbrev pub zap_fields : List Field → List Z
  zap_fields fields = map (λ (f : Field). zap.any f.key f.val) fields

  unfoldable pub zap_log : ZapAdapter L → Level → String → List Field → List (ZapEntry L Z)
  zap_log z level format fields =
      let entry : ZapEntry L Z = record {
        logger = z.logger;
        level = level;
        message = format;
        fields = zap_fields fields;
      } in
      let one = entry ∷ [] in
      if ltb_ℤ level z.level then [] else by_level level one one one one one one []

  unfoldable pub zap_with : List Field → ZapAdapter L → ZapAdapter L
  zap_with fields z =
      if length fields == 0
      then z
      else record { logger = zap.with_fields (zap_fields fields) z.logger; level = z.level }

unfoldable pub new_zap_adapter : {L : Type 0} → Level → L → ZapAdapter L
unfolding get_level
new_zap_adapter current_level logger = record { logger = logger; level = get_level current_level }

unfoldable pub zap_set_level : {L : Type 0} → Level → ZapAdapter L → ZapAdapter L × Run (Unit {0})
zap_set_level level z =
    if valid level then (record z { level = level }, ok tt) else (z, err invalid_level)

-- The constants of zapcore, in their documented order.
pub record ZapLevels : Type 0 where
  pub debug : ℤ
  pub info : ℤ
  pub warn : ℤ
  pub error : ℤ
  pub panic : ℤ
  pub fatal : ℤ
  pub invalid : ℤ

pub record IsZapOrdered (c : ZapLevels) : Type 0 where
  pub debug_first : c.debug <ℤ c.info
  pub info_next : c.info <ℤ c.warn
  pub warn_next : c.warn <ℤ c.error
  pub error_next : c.error <ℤ c.panic
  pub panic_next : c.panic <ℤ c.fatal
  pub fatal_next : c.fatal <ℤ c.invalid

unfoldable pub convert_to_zap_level : ZapLevels → Level → ℤ
convert_to_zap_level c l = by_level l c.debug c.info c.warn c.error c.fatal c.panic c.invalid

unfoldable pub zap_to_level : ZapLevels → ℤ → Level
zap_to_level c l =
    if eqb_ℤ l c.debug
    then level_debug
    else if eqb_ℤ l c.info
    then level_info
    else if eqb_ℤ l c.warn
    then level_warn
    else if eqb_ℤ l c.error
    then level_error
    else if eqb_ℤ l c.fatal
    then level_fatal
    else if eqb_ℤ l c.panic
    then level_panic
    else level_invalid
