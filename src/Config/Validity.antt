-- ===== src/Config/Validity.antt =====
-- What a `SwitchCondition` holds between calls.
use chanjet.Common.{◌^◌, ◌-◌, ◌≤◌, ◌≡◌, ◌≢◌, ◌↔◌, none, arith}
use chanjet.Common.Int.{pos, ◌+ℤ◌, ◌≤ℤ◌, ◌<ℤ◌, wrap64_of_fits, +ℤ_parts}
use chanjet.Common.Run.{ok}
use chanjet.Config.{
  SwitchConfig, SwitchCondition, milliseconds, validate, new_switch_condition, update_config,
  get_config,
}

pub record InRange (c : SwitchConfig) : Type 0 where
  pub percent_low : pos 0 ≤ℤ c.percent
  pub percent_high : c.percent ≤ℤ pos 100
  pub time_low : pos 0 ≤ℤ c.time

pub record IsValid (s : SwitchCondition) : Type 0 where
  pub range : InRange s.config
  pub stamped : s.config.version ≡ s.version
  pub millis : s.config.time_millis ≡ milliseconds s.config.time
  pub room : s.signals ≤ 1

-- Validation accepts exactly the configurations whose percentage is from 0 to 100 and whose time
-- is not negative.
validate_iff : (c : SwitchConfig) → (validate c ≡ none) ↔ InRange c
unfolding validate
validate_iff c = ground arith

-- A new condition is made exactly from a configuration in range; it is valid, at version 1, with
-- one signal pending, and it holds the thresholds that were given.
pub new-IsValid :
    (c : SwitchConfig) {s : SwitchCondition}
    → new_switch_condition c ≡ ok s
    → IsValid s
      × (s.version ≡ pos 1)
      × (s.signals ≡ 1)
      × (s.config.percent ≡ c.percent)
      × (s.config.time ≡ c.time)
unfolding new_switch_condition validate
new-IsValid c h = ground arith

-- An update out of range is refused and changes nothing. One in range is taken whole: the new
-- thresholds are what `GetConfig` returns, the version grows by one, a signal is pending, and the
-- condition stays valid.
pub update_config_lem :
    (c : SwitchConfig) (s : SwitchCondition)
    → IsValid s
    → pos 0 ≤ℤ s.version
    → s.version <ℤ pos (2 ^ 63 - 1)
    → let (s', e) = update_config c s in
      (((e ≢ none) → (s' ≡ s) × (InRange c → ⊥)))
      × ((e ≡ none)
          → IsValid s'
            × InRange c
            × ((get_config s').percent ≡ c.percent)
            × ((get_config s').time ≡ c.time)
            × (s'.version ≡ s.version +ℤ pos 1)
            × (s'.signals ≡ 1))
unfolding update_config get_config validate
update_config_lem c s v low high =
    ground (arith, wrap64_of_fits (s.version +ℤ pos 1), +ℤ_parts s.version (pos 1))
