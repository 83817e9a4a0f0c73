-- ===== src/Strategy/Tests.antt =====
-- The default strategy over a float64 of whole numbers.
use chanjet.Common.{◌≡◌, refl, true}
use chanjet.Common.Int.{ℤ, pos, ◌+ℤ◌, leb_ℤ}
use chanjet.Strategy.{Float64, default_strategy}

-- Percent, with the weights in tenths.
abbrev rough : Float64 ℤ
rough = record {
  of_int = λ n. n;
  div = λ a b. a;
  mul = λ a b. b;
  add = λ a b. a +ℤ b;
  ge = λ a b. leb_ℤ b a;
  time_weight = pos 4;
  size_weight = pos 6;
  full_capacity = pos 85;
}

switches : default_strategy rough (pos 40) (pos 100) (pos 50) (pos 100) ≡ true
unfolding default_strategy ◌+ℤ◌
switches = refl
