-- ===== src/Consts.antt =====
-- const.go: the enumerations of the package. A Go enumeration is an integer type, so each type
-- holds every integer, and the constants are names for a few.
pub mod CollectorType
pub mod ReadMode
pub mod SwitchStatus
use chanjet.Common.{ℕ}
use chanjet.Common.Int.{ℤ, pos}

pub data OperationType : Type 0 where
  metrics_inc_op metrics_dec_op : OperationType

-- The state of a `DoubleBuffer`; `SmartBuffer.Write` compares with the last one too.
abbrev pub writing_state : ℕ
writing_state = 0

abbrev pub switching_state : ℕ
switching_state = 1

abbrev pub closed_state : ℕ
closed_state = 2

-- The state of a `SmartBuffer`.
abbrev pub write_only : ℕ
write_only = 0

abbrev pub read_only : ℕ
read_only = 1

abbrev pub switching : ℕ
switching = 2
