-- ===== src/Consts/ReadMode.antt =====
-- const.go: `ReadMode` with its methods.
use Prim.Native.String.{String}
use text.Mathlib.TextEquality.{eq_iff}
use chanjet.Common.{◌≡◌, ◌≢◌, ◌↔◌, Bool, true, ◌||◌, if◌then◌else◌, arith}
use chanjet.Common.Int.{ℤ, pos, eqb_ℤ}

abbrev pub ReadMode : Type 0
ReadMode = ℤ

abbrev pub safe_read : ReadMode
safe_read = pos 1

abbrev pub zero_copy_read : ReadMode
zero_copy_read = pos 2

unfoldable pub to_string : ReadMode → String
to_string m =
    if eqb_ℤ m safe_read
    then "Safe read"
    else if eqb_ℤ m zero_copy_read
    then "Zero-copy read"
    else "unknown"

unfoldable pub validate : ReadMode → Bool
validate m = eqb_ℤ m safe_read || eqb_ℤ m zero_copy_read

-- A read mode is valid exactly when it has a name.
pub validate_iff_named : (m : ReadMode) → (validate m ≡ true) ↔ (to_string m ≢ "unknown")
unfolding validate to_string
validate_iff_named m =
    ground (arith, eq_iff "Safe read" "unknown", eq_iff "Zero-copy read" "unknown")
