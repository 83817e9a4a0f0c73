-- ===== src/Atomic/Integer.antt =====
-- The generated integers.
use chanjet.Common.{◌≡◌, ◌^◌, ◌-◌, arith}
use chanjet.Common.Int.{ℤ, pos, negsuc, ◌+ℤ◌, ◌≤ℤ◌, wrap32, bits32, signed32, wrap64}
use chanjet.Atomic.{Width, int32, int64, uint32, uint64, uintptr, wrap, add, inc, dec}

-- The values of a width.
abbrev pub Fits : Width → ℤ → Type 0
Fits int32 a = (negsuc (2 ^ 31 - 1) ≤ℤ a) × (a ≤ℤ pos (2 ^ 31 - 1))
Fits int64 a = (negsuc (2 ^ 63 - 1) ≤ℤ a) × (a ≤ℤ pos (2 ^ 63 - 1))
Fits uint32 a = (pos 0 ≤ℤ a) × (a ≤ℤ pos (2 ^ 32 - 1))
Fits uint64 a = (pos 0 ≤ℤ a) × (a ≤ℤ pos (2 ^ 64 - 1))
Fits uintptr a = (pos 0 ≤ℤ a) × (a ≤ℤ pos (2 ^ 64 - 1))

-- `Dec` takes back an `Inc`, for each value of the width, also where the `Inc` wraps.
dec-inc : (w : Width) (a : ℤ) → Fits w a → dec w (inc w a) ≡ a
unfolding dec inc add wrap wrap32 bits32 signed32 wrap64 ◌+ℤ◌
dec-inc int32 a h = ground arith
dec-inc int64 a h = ground arith
dec-inc uint32 a h = ground arith
dec-inc uint64 a h = ground arith
dec-inc uintptr a h = ground arith
