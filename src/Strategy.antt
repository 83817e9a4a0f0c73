-- ===== src/Strategy.antt =====
-- core/switch_strategy.go: when the channels are switched. Counts and sizes are int32, durations
-- int64 nanoseconds.
mod Tests
use chanjet.Common.{Bool, true, false, if◌then◌else◌}
use chanjet.Common.Int.{ℤ, pos, ltb_ℤ, leb_ℤ}

-- What the source uses of float64: conversion, the arithmetic, the two weights and the threshold.
pub record Float64 {ℓ} (F : Type ℓ) : Type ℓ where
  pub of_int : ℤ → F
  pub div : F → F → F
  pub mul : F → F → F
  pub add : F → F → F
  pub ge : F → F → Bool
  pub time_weight : F
  pub size_weight : F
  pub full_capacity : F

abbrev pub min_buffer_size : ℤ
min_buffer_size = pos 1

abbrev pub clamped : ℤ → ℤ
clamped buffer_size = if ltb_ℤ buffer_size min_buffer_size then min_buffer_size else buffer_size

-- The test on the two factors together.
abbrev pub combined {ℓ} : {F : Type ℓ} → Float64 F → ℤ → ℤ → ℤ → ℤ → Bool
combined f current_count buffer_size elapsed interval =
    let count_factor = f.div (f.of_int current_count) (f.of_int buffer_size) in
    let switch_factor = f.div (f.of_int elapsed) (f.of_int interval) in
    f.ge (f.add (f.mul f.time_weight switch_factor) (f.mul f.size_weight count_factor))
      f.full_capacity

unfoldable pub default_strategy {ℓ} : {F : Type ℓ} → Float64 F → ℤ → ℤ → ℤ → ℤ → Bool
default_strategy f current_count buffer_size elapsed interval =
    let size = clamped buffer_size in
    if leb_ℤ size current_count
    then true
    else if leb_ℤ interval elapsed
    then true
    else combined f current_count size elapsed interval

unfoldable pub size_only : ℤ → ℤ → ℤ → ℤ → Bool
size_only current_count buffer_size _ _ = leb_ℤ buffer_size current_count

unfoldable pub time_window_only : ℤ → ℤ → ℤ → ℤ → Bool
time_window_only _ _ elapsed interval = leb_ℤ interval elapsed
