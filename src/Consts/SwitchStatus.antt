-- ===== src/Consts/SwitchStatus.antt =====
-- const.go: `SwitchStatus` with its method.
use Prim.Native.String.{String}
use chanjet.Common.{if◌then◌else◌}
use chanjet.Common.Int.{ℤ, pos, eqb_ℤ}

abbrev pub SwitchStatus : Type 0
SwitchStatus = ℤ

abbrev pub switch_success : SwitchStatus
switch_success = pos 0

abbrev pub switch_failure : SwitchStatus
switch_failure = pos 1

abbrev pub switch_skip : SwitchStatus
switch_skip = pos 2

unfoldable pub to_string : SwitchStatus → String
to_string s =
    if eqb_ℤ s switch_success
    then "Switch success"
    else if eqb_ℤ s switch_failure
    then "Switch failure"
    else if eqb_ℤ s switch_skip
    then "Switch skip"
    else "unknown"
