-- ===== src/Config/Tests.antt =====
-- A condition that is made, updated and watched.
use chanjet.Common.{◌≡◌, ◌≢◌, refl, none, arith}
use chanjet.Common.Int.{pos, ◌+ℤ◌}
use chanjet.Common.Run.{ok}
use chanjet.Config.{
  SwitchConfig, SwitchCondition, validate, new_switch_condition, update_config, get_config, receive,
  milliseconds,
}
use chanjet.Config.Validity.{InRange, IsValid, new-IsValid, update_config_lem}
use chanjet.Config.Watch.{
  System, Reach, here, next, update, poll_signal, reload, idle, no_missed_update,
}

abbrev given : SwitchConfig
given = record { version = pos 0; percent = pos 80; time = pos 5_000_000; time_millis = pos 0 }

abbrev made : SwitchCondition
made = record {
  config = record { version = pos 1; percent = pos 80; time = pos 5_000_000; time_millis = pos 5 };
  signals = 1;
  version = pos 1;
}

makes : new_switch_condition given ≡ ok made
unfolding new_switch_condition validate milliseconds
makes = refl

abbrev later : SwitchConfig
later = record given { percent = pos 50 }

update_config_lem_example :
    let (s', e) = update_config later made in
    (((e ≢ none) → (s' ≡ made) × (InRange later → ⊥)))
    × ((e ≡ none)
        → IsValid s'
          × InRange later
          × ((get_config s').percent ≡ pos 50)
          × ((get_config s').time ≡ pos 5_000_000)
          × (s'.version ≡ made.version +ℤ pos 1)
          × (s'.signals ≡ 1))
update_config_lem_example =
    update_config_lem later made (new-IsValid given makes).0 (omega arith) (omega arith)

abbrev start : System
start = record { shared = made; cached = get_config made; phase = idle }

abbrev last : System
last =
    let changed = (update_config later made).0 in
    record { shared = (receive changed).0; cached = get_config (receive changed).0; phase = idle }

reached : Reach start last
unfolding update_config validate receive
reached = next (next (next here (update later)) (poll_signal refl refl)) (reload refl)

signals-last : last.shared.signals ≡ 0
unfolding update_config validate receive
signals-last = refl

no_missed_update_example : last.cached ≡ get_config last.shared
no_missed_update_example = no_missed_update made reached signals-last refl
