-- ===== src/Consts/CollectorType.antt =====
-- const.go: `CollectorType` with its methods.
use Prim.Native.String.{String}
use chanjet.Common.{Bool, ◌||◌, if◌then◌else◌}
use chanjet.Common.Int.{ℤ, pos, eqb_ℤ}

abbrev pub CollectorType : Type 0
CollectorType = ℤ

abbrev pub prometheus_collector : CollectorType
prometheus_collector = pos 0

abbrev pub open_telemetry_collector : CollectorType
open_telemetry_collector = pos 1

abbrev pub unknown : String
unknown = "unknown"

unfoldable pub to_string : CollectorType → String
to_string c =
    if eqb_ℤ c prometheus_collector
    then "Prometheus"
    else if eqb_ℤ c open_telemetry_collector
    then "OpenTelemetry"
    else unknown

unfoldable pub validate : CollectorType → Bool
validate c = eqb_ℤ c prometheus_collector || eqb_ℤ c open_telemetry_collector
