-- ===== src/Common/Run.antt =====
-- The errors of errorx/errorx.go with those made in place by `errors.New`, and how a call ends.

use mathlib.Core.Bool.{Bool, true, false}

pub data Error : Type 0 where
  buffer_close buffer_full : Error
  size_threshold percent_threshold time_threshold : Error
  no_buffer read_mode read : Error
  queue_full queue_empty queue_closed : Error
  -- `errors.New("buffer is read-only")`, "invalid read mode", "invalid metrics collector",
  -- "invalid log level"
  buffer_read_only invalid_read_mode invalid_collector invalid_level : Error

-- A result, a returned error, or a run-time panic.
pub data Run {ℓ} (A : Type ℓ) : Type ℓ where
  ok : A → Run A
  err : Error → Run A
  panic : Run A

infixl 5 ◌>>=◌
abbrev pub ◌>>=◌ {ℓ κ} : {A : Type ℓ} {B : Type κ} → Run A → (A → Run B) → Run B
ok a >>= f = f a
err e >>= f = err e
panic >>= f = panic

abbrev pub is_ok {ℓ} : {A : Type ℓ} → Run A → Bool
is_ok (ok _) = true
is_ok (err _) = false
is_ok panic = false
