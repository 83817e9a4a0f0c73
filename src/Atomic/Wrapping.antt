-- ===== src/Atomic/Wrapping.antt =====
-- Sums that wrap at each width: a wrap before the last one makes no difference.
use chanjet.Common.{◌-◌, ◌^◌, ◌≡◌, arith}
use chanjet.Common.Int.{
  ℤ, pos, negsuc, ◌+ℤ◌, ◌≤ℤ◌, wrap32, bits32, signed32, wrap64, wrap32_of_fits, wrap64_of_fits,
}
use chanjet.Atomic.{Width, int32, int64, uint32, uint64, uintptr, wrap, unsigned}
use chanjet.Atomic.Integer.{Fits}

wrap32-add : (a b : ℤ) → wrap32 (wrap32 a +ℤ b) ≡ wrap32 (a +ℤ b)
unfolding wrap32 bits32 signed32 ◌+ℤ◌
wrap32-add (pos a) (pos b) = ground arith
wrap32-add (pos a) (negsuc b) = ground arith
wrap32-add (negsuc a) (pos b) = ground arith
wrap32-add (negsuc a) (negsuc b) = ground arith

wrap64-add : (a b : ℤ) → wrap64 (wrap64 a +ℤ b) ≡ wrap64 (a +ℤ b)
unfolding wrap64 ◌+ℤ◌
wrap64-add (pos a) (pos b) = ground arith
wrap64-add (pos a) (negsuc b) = ground arith
wrap64-add (negsuc a) (pos b) = ground arith
wrap64-add (negsuc a) (negsuc b) = ground arith

unsigned32-add : (a b : ℤ) → unsigned 32 (unsigned 32 a +ℤ b) ≡ unsigned 32 (a +ℤ b)
unfolding ◌+ℤ◌
unsigned32-add (pos a) (pos b) = ground arith
unsigned32-add (pos a) (negsuc b) = ground arith
unsigned32-add (negsuc a) (pos b) = ground arith
unsigned32-add (negsuc a) (negsuc b) = ground arith

unsigned64-add : (a b : ℤ) → unsigned 64 (unsigned 64 a +ℤ b) ≡ unsigned 64 (a +ℤ b)
unfolding ◌+ℤ◌
unsigned64-add (pos a) (pos b) = ground arith
unsigned64-add (pos a) (negsuc b) = ground arith
unsigned64-add (negsuc a) (pos b) = ground arith
unsigned64-add (negsuc a) (negsuc b) = ground arith

pub wrap-add : (w : Width) (a b : ℤ) → wrap w (wrap w a +ℤ b) ≡ wrap w (a +ℤ b)
unfolding wrap
wrap-add int32 a b = wrap32-add a b
wrap-add int64 a b = wrap64-add a b
wrap-add uint32 a b = unsigned32-add a b
wrap-add uint64 a b = unsigned64-add a b
wrap-add uintptr a b = unsigned64-add a b

-- To add the greatest unsigned value is to take one away.
top32 : (a : ℤ) → unsigned 32 (a +ℤ pos (2 ^ 32 - 1)) ≡ unsigned 32 (a +ℤ negsuc 0)
unfolding ◌+ℤ◌
top32 (pos a) = ground arith
top32 (negsuc a) = ground arith

top64 : (a : ℤ) → unsigned 64 (a +ℤ pos (2 ^ 64 - 1)) ≡ unsigned 64 (a +ℤ negsuc 0)
unfolding ◌+ℤ◌
top64 (pos a) = ground arith
top64 (negsuc a) = ground arith

pub wrap-top32 : (a : ℤ) → wrap uint32 (a +ℤ pos (2 ^ 32 - 1)) ≡ wrap uint32 (a +ℤ negsuc 0)
unfolding wrap
wrap-top32 a = top32 a

pub wrap-top64 : (a : ℤ) → wrap uint64 (a +ℤ pos (2 ^ 64 - 1)) ≡ wrap uint64 (a +ℤ negsuc 0)
unfolding wrap
wrap-top64 a = top64 a

pub wrap-top_ptr : (a : ℤ) → wrap uintptr (a +ℤ pos (2 ^ 64 - 1)) ≡ wrap uintptr (a +ℤ negsuc 0)
unfolding wrap
wrap-top_ptr a = top64 a

unsigned_fits32 : (a : ℤ) → pos 0 ≤ℤ a → a ≤ℤ pos (2 ^ 32 - 1) → unsigned 32 a ≡ a
unsigned_fits32 (pos a) lo hi = ground arith
unsigned_fits32 (negsuc a) lo hi = absurd (omega arith)

unsigned_fits64 : (a : ℤ) → pos 0 ≤ℤ a → a ≤ℤ pos (2 ^ 64 - 1) → unsigned 64 a ≡ a
unsigned_fits64 (pos a) lo hi = ground arith
unsigned_fits64 (negsuc a) lo hi = absurd (omega arith)

pub wrap_of_Fits : (w : Width) (a : ℤ) → Fits w a → wrap w a ≡ a
unfolding wrap
wrap_of_Fits int32 a h = wrap32_of_fits a h.0 h.1
wrap_of_Fits int64 a h = wrap64_of_fits a h.0 h.1
wrap_of_Fits uint32 a h = unsigned_fits32 a h.0 h.1
wrap_of_Fits uint64 a h = unsigned_fits64 a h.0 h.1
wrap_of_Fits uintptr a h = unsigned_fits64 a h.0 h.1
