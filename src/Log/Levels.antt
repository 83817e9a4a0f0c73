-- ===== src/Log/Levels.antt =====
-- Levels: their names, and their way through the two logging libraries and back.
use text.Mathlib.TextEquality.{eq_iff}
use chanjet.Common.{◌≡◌, ◌≢◌, ◌↔◌, true, if◌then◌else◌, arith}
use chanjet.Log.{Level, level_info, level_invalid, to_string, upper_string, valid}
use chanjet.Log.Zap.{ZapLevels, IsZapOrdered, convert_to_zap_level, zap_to_level}
use chanjet.Log.Logrus.{LogrusLevels, IsLogrusOrdered, convert_logrus_level, logrus_to_level}

-- A level is valid exactly when it has a name, in lower case and in upper case.
valid_iff_named :
    (l : Level)
    → ((valid l ≡ true) ↔ (to_string l ≢ "unknown"))
      × ((valid l ≡ true) ↔ (upper_string l ≢ "UNKNOWN"))
unfolding valid to_string upper_string
valid_iff_named l = (
  ground (
    arith,
    eq_iff "debug" "unknown",
    eq_iff "info" "unknown",
    eq_iff "warn" "unknown",
    eq_iff "error" "unknown",
    eq_iff "fatal" "unknown",
    eq_iff "panic" "unknown",
  ),
  ground (
    arith,
    eq_iff "DEBUG" "UNKNOWN",
    eq_iff "INFO" "UNKNOWN",
    eq_iff "WARN" "UNKNOWN",
    eq_iff "ERROR" "UNKNOWN",
    eq_iff "FATAL" "UNKNOWN",
    eq_iff "PANIC" "UNKNOWN",
  ),
)

-- A level that is turned into one of zap and back is the same if it is valid, and invalid if not; one
-- that is turned into one of logrus and back is the same if it is valid, and the info level if not.
pub levels_back :
    (z : ZapLevels) (c : LogrusLevels) (l : Level)
    → IsZapOrdered z
    → IsLogrusOrdered c
    → (zap_to_level z (convert_to_zap_level z l) ≡ (if valid l then l else level_invalid))
      × (logrus_to_level c (convert_logrus_level c l) ≡ (if valid l then l else level_info))
unfolding valid convert_to_zap_level zap_to_level convert_logrus_level logrus_to_level
levels_back z c l oz oc = (ground arith, ground arith)
