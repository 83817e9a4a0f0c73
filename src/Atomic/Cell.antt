-- ===== src/Atomic/Cell.antt =====
-- `Bool` is a Boolean variable.
use chanjet.Common.{◌≡◌, refl, ap, Bool, true, false, List, [], ◌∷◌, if◌then◌else◌, not}
use chanjet.Atomic.{
  AtomicBool, bit, new_bool, set_true, set_false, load, store, swap, compare_and_swap,
}

pub data Call : Type 0 where
  set_to_true set_to_false loaded : Call
  stored swapped : Bool → Call
  compared : Bool → Bool → Call

-- What a call returns, and `true` if it returns nothing.
unfoldable pub step : Call → AtomicBool → Bool × AtomicBool
unfolding swap compare_and_swap
step set_to_true b = (true, set_true b)
step set_to_false b = (true, set_false b)
step loaded b = (load b, b)
step (stored v) b = (true, store v b)
step (swapped v) b = swap v b
step (compared o n) b = compare_and_swap o n b

-- The same calls on a Boolean.
unfoldable pub plain : Call → Bool → Bool × Bool
plain set_to_true b = (true, true)
plain set_to_false b = (true, false)
plain loaded b = (b, b)
plain (stored v) b = (true, v)
plain (swapped v) b = (b, v)
plain (compared true n) b = (b, if b then n else b)
plain (compared false n) b = (not b, if b then b else n)

unfoldable pub run : List Call → AtomicBool → List Bool
unfolding step
run [] b = []
run (c ∷ cs) b = let (r, b') = step c b in r ∷ run cs b'

unfoldable pub run_plain : List Call → Bool → List Bool
unfolding plain
run_plain [] b = []
run_plain (c ∷ cs) b = let (r, b') = plain c b in r ∷ run_plain cs b'

abbrev of : Bool → AtomicBool
of b = record { value = bit b }

step-plain : (c : Call) (b : Bool) → step c (of b) ≡ ((plain c b).0, of (plain c b).1)
unfolding step plain set_true set_false load store swap compare_and_swap
step-plain set_to_true b = refl
step-plain set_to_false b = refl
step-plain loaded true = refl
step-plain loaded false = refl
step-plain (stored true) b = refl
step-plain (stored false) b = refl
step-plain (swapped v) true = refl
step-plain (swapped v) false = refl
step-plain (compared true n) true = refl
step-plain (compared true n) false = refl
step-plain (compared false n) true = refl
step-plain (compared false n) false = refl

run-of : (cs : List Call) (b : Bool) → run cs (of b) ≡ run_plain cs b
unfolding run run_plain
run-of [] b = refl
run-of (c ∷ cs) b =
    rw (step-plain c b) (ap (λ (rs : List Bool). (plain c b).0 ∷ rs) (run-of cs (plain c b).1))

-- No sequence of calls tells a new `Bool` from a Boolean variable that starts false.
run_as_bool : (cs : List Call) → run cs new_bool ≡ run_plain cs false
unfolding new_bool
run_as_bool cs = run-of cs false
