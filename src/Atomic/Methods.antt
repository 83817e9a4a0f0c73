-- ===== src/Atomic/Methods.antt =====
-- utils/atomicx/atomic_generated.go: the methods of each generated integer type, over the functions
-- of `sync/atomic`, which are one step each. A cell is its value; a method that changes it returns the
-- new value last.
use chanjet.Common.{◌-◌, ◌^◌, Bool}
use chanjet.Common.Int.{ℤ, pos, negsuc}
use chanjet.Atomic.{Width, int32, int64, uint32, uint64, uintptr, add, compare_and_swap_int}

pub record Methods : Type 0 where
  pub new : ℤ → ℤ
  pub add : ℤ → ℤ → ℤ × ℤ
  pub store : ℤ → ℤ → ℤ
  pub load : ℤ → ℤ
  pub swap : ℤ → ℤ → ℤ × ℤ
  pub compare_and_swap : ℤ → ℤ → ℤ → Bool × ℤ
  pub inc : ℤ → ℤ × ℤ
  pub dec : ℤ → ℤ × ℤ

-- `atomic.Add` returns the new value.
abbrev added : Width → ℤ → ℤ → ℤ × ℤ
added w delta value = (add w delta value, add w delta value)

unfoldable pub int32_methods : Methods
unfolding add compare_and_swap_int
int32_methods = record {
  new = λ v. v;
  add = λ delta value. added int32 delta value;
  store = λ val value. val;
  load = λ value. value;
  swap = λ new_val value. (value, new_val);
  compare_and_swap = λ old_val new_val value. compare_and_swap_int old_val new_val value;
  inc = λ value. added int32 (pos 1) value;
  dec = λ value. added int32 (negsuc 0) value;
}

unfoldable pub int64_methods : Methods
unfolding add compare_and_swap_int
int64_methods = record {
  new = λ v. v;
  add = λ delta value. added int64 delta value;
  store = λ val value. val;
  load = λ value. value;
  swap = λ new_val value. (value, new_val);
  compare_and_swap = λ old_val new_val value. compare_and_swap_int old_val new_val value;
  inc = λ value. added int64 (pos 1) value;
  dec = λ value. added int64 (negsuc 0) value;
}

unfoldable pub uint32_methods : Methods
unfolding add compare_and_swap_int
uint32_methods = record {
  new = λ v. v;
  add = λ delta value. added uint32 delta value;
  store = λ val value. val;
  load = λ value. value;
  swap = λ new_val value. (value, new_val);
  compare_and_swap = λ old_val new_val value. compare_and_swap_int old_val new_val value;
  inc = λ value. added uint32 (pos 1) value;
  dec = λ value. added uint32 (pos (2 ^ 32 - 1)) value;
}

unfoldable pub uint64_methods : Methods
unfolding add compare_and_swap_int
uint64_methods = record {
  new = λ v. v;
  add = λ delta value. added uint64 delta value;
  store = λ val value. val;
  load = λ value. value;
  swap = λ new_val value. (value, new_val);
  compare_and_swap = λ old_val new_val value. compare_and_swap_int old_val new_val value;
  inc = λ value. added uint64 (pos 1) value;
  dec = λ value. added uint64 (pos (2 ^ 64 - 1)) value;
}

unfoldable pub uintptr_methods : Methods
unfolding add compare_and_swap_int
uintptr_methods = record {
  new = λ v. v;
  add = λ delta value. added uintptr delta value;
  store = λ val value. val;
  load = λ value. value;
  swap = λ new_val value. (value, new_val);
  compare_and_swap = λ old_val new_val value. compare_and_swap_int old_val new_val value;
  inc = λ value. added uintptr (pos 1) value;
  dec = λ value. added uintptr (pos (2 ^ 64 - 1)) value;
}

unfoldable pub methods : Width → Methods
unfolding int32_methods int64_methods uint32_methods uint64_methods uintptr_methods
methods int32 = int32_methods
methods int64 = int64_methods
methods uint32 = uint32_methods
methods uint64 = uint64_methods
methods uintptr = uintptr_methods
