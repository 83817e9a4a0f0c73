-- ===== src/Log/Tests.antt =====
-- The adapters over loggers that keep the fields they were given.
use chanjet.Common.{◌≡◌, refl, List, [], ◌∷◌, ◌++◌, if◌then◌else◌, arith}
use chanjet.Common.Int.{pos, negsuc}
use chanjet.Common.Keyed.{assign}
use chanjet.Log.{
  level_debug, level_info, level_warn, level_error, level_invalid, Field, string_field, int_field,
  valid,
}
use chanjet.Log.Zap.{ZapLibrary, ZapAdapter, ZapLevels, convert_to_zap_level, zap_to_level}
use chanjet.Log.Logrus.{
  Fields, fields_of, LogrusLibrary, LogrusAdapter, LogrusLevels, convert_logrus_level,
  logrus_to_level,
}
use chanjet.Log.Levels.{levels_back}
use chanjet.Log.Agree.{
  Call, logs, sets_level, with_fields, zap_run, logrus_run, expected, adapters_agree,
}

abbrev zapcore : ZapLevels
zapcore = record {
  debug = negsuc 0;
  info = pos 0;
  warn = pos 1;
  error = pos 2;
  panic = pos 4;
  fatal = pos 5;
  invalid = pos 6;
}

abbrev logrus_levels : LogrusLevels
logrus_levels = record {
  panic = pos 0;
  fatal = pos 1;
  error = pos 2;
  warn = pos 3;
  info = pos 4;
  debug = pos 5;
}

levels_back_example :
    (zap_to_level zapcore (convert_to_zap_level zapcore level_invalid)
      ≡ (if valid level_invalid then level_invalid else level_invalid))
    × (logrus_to_level logrus_levels (convert_logrus_level logrus_levels level_invalid)
        ≡ (if valid level_invalid then level_invalid else level_info))
levels_back_example = levels_back zapcore logrus_levels level_invalid (omega arith) (omega arith)

abbrev zap : ZapLibrary (List Field) Field
zap = record { any = λ k v. record { key = k; val = v }; with_fields = λ fs l. l ++ fs }

abbrev logrus : LogrusLibrary Fields
logrus = record { with_fields = λ fs e. e ++ fs }

abbrev script : List Call
script =
    logs level_debug "start" []
    ∷ logs level_info "ready" (int_field "size" (pos 4) ∷ [])
    ∷ sets_level level_invalid
    ∷ with_fields (string_field "part" "heap" ∷ [])
    ∷ sets_level level_error
    ∷ logs level_warn "slow" []
    ∷ logs level_error "lost" []
    ∷ []

adapters_agree_example :
    let z : ZapAdapter (List Field) = record { logger = []; level = level_info } in
    let l : LogrusAdapter Fields = record { entry = []; level = level_info } in
    (zap_run zap logrus logrus_levels script z
      ≡ expected zap logrus logrus_levels script level_info)
    × (logrus_run zap logrus logrus_levels script l (pos 4)
        ≡ zap_run zap logrus logrus_levels script z)
adapters_agree_example =
    adapters_agree zap logrus logrus_levels script (record { logger = []; level = level_info })
      (record { entry = []; level = level_info }) (pos 4) refl

what_is_expected :
    expected zap logrus logrus_levels script level_info
    ≡ (level_info, "ready") ∷ (level_error, "lost") ∷ []
unfolding expected valid
what_is_expected = refl

-- The later of two fields of one key wins.
last_field_wins :
    fields_of (int_field "a" (pos 1) ∷ int_field "b" (pos 2) ∷ int_field "a" (pos 3) ∷ []) []
    ≡ fields_of (int_field "b" (pos 2) ∷ int_field "a" (pos 3) ∷ []) []
unfolding fields_of assign
last_field_wins = refl
