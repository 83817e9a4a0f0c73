-- ===== src/Config.antt =====
-- config/config.go: the switch condition, its validation, its version and its update signal.
-- A call holds the lock throughout, so it is one step. Durations are int64 nanoseconds.
mod Tests
pub mod Validity
pub mod Watch
use chanjet.Common.{
  ℕ, zero, suc, ◌+◌, ◌/◌, Bool, true, false, ◌||◌, Option, none, some, if◌then◌else◌,
}
use chanjet.Common.Int.{ℤ, pos, negsuc, neg, ◌+ℤ◌, ltb_ℤ, wrap64}
use chanjet.Common.Run.{Error, percent_threshold, time_threshold, Run, ok, err, ◌>>=◌}

-- `version` and `time_threshold_millis` are int64; `percent` is an int.
pub record SwitchConfig : Type 0 where
  pub version : ℤ
  pub percent : ℤ
  pub time : ℤ
  pub time_millis : ℤ

-- `signals` counts what the channel `notify`, of capacity 1, holds.
pub record SwitchCondition : Type 0 where
  pub config : SwitchConfig
  pub signals : ℕ
  pub version : ℤ

-- `time.Duration.Milliseconds`: Go's `/` rounds towards 0.
unfoldable pub milliseconds : ℤ → ℤ
milliseconds (pos n) = pos (n / 1_000_000)
milliseconds (negsuc n) = neg (suc n / 1_000_000)

unfoldable pub validate : SwitchConfig → Option Error
validate sc =
    if ltb_ℤ sc.percent (pos 0) || ltb_ℤ (pos 100) sc.percent
    then some percent_threshold
    else if ltb_ℤ sc.time (pos 0)
    then some time_threshold
    else none

unfoldable pub new_switch_condition : SwitchConfig → Run SwitchCondition
new_switch_condition config = elim (validate config) [
  | some e ↦ err e
  | none ↦ ok (record {
    config = record config { time_millis = milliseconds config.time; version = pos 1 };
    signals = 1;
    version = pos 1;
  })
]

-- The `select` sends only if the channel has room.
abbrev pub signal : ℕ → ℕ
signal zero = 1
signal (suc n) = suc n

unfoldable pub update_config : SwitchConfig → SwitchCondition → SwitchCondition × Option Error
update_config sc s = elim (validate sc) [
  | some e ↦ (s, some e)
  | none ↦
      let version = wrap64 (s.version +ℤ pos 1) in
      (
        record {
          config = record sc { version = version; time_millis = milliseconds sc.time };
          signals = signal s.signals;
          version = version;
        },
        none,
      )
]

unfoldable pub get_config : SwitchCondition → SwitchConfig
get_config s = s.config

-- A receive from the channel of `Register`, as the `select` of a reader makes it.
unfoldable pub receive : SwitchCondition → SwitchCondition × Bool
receive s = if ltb_ℤ (pos 0) (pos s.signals) then (record s { signals = 0 }, true) else (s, false)
