-- ===== src/Common/Keyed.antt =====
-- Go maps with text as the key: an association list with each key once, the last assigned in front.
use Prim.Native.String.{String}
use text.Mathlib.Text.{◌==◌}
use text.Mathlib.TextEquality.{eq_iff}
use chanjet.Common.{◌≡◌, List, [], ◌∷◌, Option, none, some, if◌then◌else◌, arith}

module _ {ℓ} {V : Type ℓ} where
  unfoldable pub value_at : List (String × V) → String → Option V
  value_at [] key = none
  value_at (e ∷ rest) key = if e.0 == key then some e.1 else value_at rest key

  unfoldable without : List (String × V) → String → List (String × V)
  without [] key = []
  without (e ∷ rest) key =
      let others = without rest key in if e.0 == key then others else e ∷ others

  -- `m[key] = value`.
  unfoldable pub assign : List (String × V) → String → V → List (String × V)
  unfolding without
  assign m key value = (key, value) ∷ without m key

  value_at-without :
      (m : List (String × V)) (key other : String)
      → value_at (without m key) other ≡ (if key == other then none else value_at m other)
  unfolding value_at without
  value_at-without [] key other = ground arith
  value_at-without (e ∷ rest) key other =
      let found = value_at-without rest key other in
      ground (arith, found, eq_iff e.0 key, eq_iff e.0 other, eq_iff key other)

  pub value_at-assign :
      (m : List (String × V)) (key other : String) (value : V)
      → value_at (assign m key value) other
        ≡ (if key == other then some value else value_at m other)
  unfolding value_at assign
  value_at-assign m key other value = ground (arith, value_at-without m key other)
