-- ===== src/Atomic.antt =====
-- utils/atomicx: `Bool`, and the generated integers as one definition over their width. An atomic
-- operation is one step; it returns its value beside the new cell.
pub mod Cell
pub mod Integer
pub mod Wrapping
pub mod Methods
pub mod Counter
mod Tests
use chanjet.Common.{ℕ, ◌-◌, ◌^◌, ◌%◌, Bool, true, false, if◌then◌else◌, ◌==◌}
use chanjet.Common.Int.{ℤ, pos, negsuc, ◌+ℤ◌, eqb_ℤ, wrap32, wrap64}

-- `value` is a uint32.
pub record AtomicBool : Type 0 where
  pub value : ℕ

abbrev pub bit : Bool → ℕ
bit b = if b then 1 else 0

unfoldable pub new_bool : AtomicBool
new_bool = record { value = 0 }

unfoldable pub set_true : AtomicBool → AtomicBool
set_true b = record { value = 1 }

unfoldable pub set_false : AtomicBool → AtomicBool
set_false b = record { value = 0 }

unfoldable pub load : AtomicBool → Bool
load b = b.value == 1

unfoldable pub store : Bool → AtomicBool → AtomicBool
store val b = if val then record { value = 1 } else record { value = 0 }

unfoldable pub swap : Bool → AtomicBool → Bool × AtomicBool
swap new_val b = (b.value == 1, record { value = bit new_val })

unfoldable pub compare_and_swap : Bool → Bool → AtomicBool → Bool × AtomicBool
compare_and_swap old_val new_val b =
    let swapped = b.value == bit old_val in
    (swapped, if swapped then record { value = bit new_val } else b)

-- The widths of the generated integers, on a machine of 64 bits, and their arithmetic. `Atomic.Methods`
-- has the methods of each type.
pub data Width : Type 0 where
  int32 int64 uint32 uint64 uintptr : Width

abbrev pub unsigned : ℕ → ℤ → ℤ
unsigned w (pos n) = pos (n % 2 ^ w)
unsigned w (negsuc n) = pos (2 ^ w - 1 - n % 2 ^ w)

unfoldable pub wrap : Width → ℤ → ℤ
wrap int32 a = wrap32 a
wrap int64 a = wrap64 a
wrap uint32 a = unsigned 32 a
wrap uint64 a = unsigned 64 a
wrap uintptr a = unsigned 64 a

unfoldable pub add : Width → ℤ → ℤ → ℤ
unfolding wrap
add w delta value = wrap w (value +ℤ delta)

unfoldable pub inc : Width → ℤ → ℤ
unfolding add
inc w value = add w (pos 1) value

unfoldable pub dec : Width → ℤ → ℤ
unfolding add
dec w value = add w (negsuc 0) value

unfoldable pub compare_and_swap_int : ℤ → ℤ → ℤ → Bool × ℤ
compare_and_swap_int old_val new_val value =
    let swapped = eqb_ℤ value old_val in (swapped, if swapped then new_val else value)
