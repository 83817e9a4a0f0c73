-- ===== src/Pools.antt =====
-- pools/life_cycle.go: which addresses of medium and big data are in use. A call holds its lock
-- throughout, so it is one step; `now` is the time of its `time.Since`, in nanoseconds, and the
-- order in which Go walks a map is the argument `order`.
mod Tests
pub mod Clean
pub mod Accounts
use chanjet.Common.{
  ℕ, suc, ◌+◌, ◌*◌, Bool, true, false, List, [], ◌∷◌, Option, none, some, ltb, ◌==◌, if◌then◌else◌,
}
use chanjet.Common.Int.{ℤ, pos, negsuc, ◌+ℤ◌, ◌-ℤ◌, wrap64, ltb_ℤ, eqb_ℤ}
use chanjet.Common.Dict.{lookup, insert, erase}
use chanjet.Buffer.{Ptr, nil}

abbrev pub second : ℕ
second = 1_000_000_000

abbrev pub medium_pool_ttl : ℤ
medium_pool_ttl = pos (120 * second)

abbrev pub max_clean_counts : ℕ
max_clean_counts = 200

-- `MediumPool.cache`: the time at which each address was put.
abbrev pub MediumPool : Type 0
MediumPool = List (Ptr × ℤ)

unfoldable pub put_medium : Ptr → ℤ → MediumPool → MediumPool
put_medium ptr t cache = insert ptr t cache

fresh_enough : ℤ → Option ℤ → Bool
fresh_enough now none = false
fresh_enough now (some t) = ltb_ℤ (now -ℤ t) medium_pool_ttl

unfoldable pub is_valid : ℤ → Ptr → MediumPool → Bool
unfolding fresh_enough
is_valid now ptr cache = fresh_enough now (lookup ptr cache)

unfoldable pub release_medium : Ptr → MediumPool → MediumPool
release_medium ptr cache = erase ptr cache

-- `time.Since(t) > time.Minute`. One reading of the clock serves a whole cleanup, where the source
-- reads it for each entry.
abbrev pub is_stale : ℤ → ℤ → Bool
is_stale now t = ltb_ℤ (pos (60 * second)) (now -ℤ t)

-- The loop of both `cleanup`s: it drops the entries that `done` picks, and stops once more than 200
-- are dropped.
unfoldable pub clean {ℓ} : {V : Type ℓ} → (V → Bool) → ℕ → List (Ptr × V) → List (Ptr × V)
clean done count [] = []
clean done count ((ptr, v) ∷ m) =
    let dropped = clean done (suc count) m in
    let kept = (ptr, v) ∷ clean done count m in
    if done v then (if ltb max_clean_counts (suc count) then m else dropped) else kept

unfoldable pub cleanup_medium : (MediumPool → MediumPool) → ℤ → MediumPool → MediumPool
cleanup_medium order now cache = clean (is_stale now) 0 (order cache)

-- Sizes and `ref` are ints of 64 bits; `ref` and `current_size` wrap.
pub record BigDataEntry : Type 0 where
  pub size : ℤ
  pub owner : Ptr
  pub ref : ℤ

pub record BigDataPool : Type 0 where
  pub pool : List (Ptr × BigDataEntry)
  pub current_size : ℤ
  pub max_size : ℤ

unfoldable pub new_big_data_pool : ℤ → BigDataPool
new_big_data_pool max_size = record { pool = []; current_size = pos 0; max_size = max_size }

unfoldable pub put_big : Ptr → ℤ → BigDataPool → BigDataPool
put_big ptr size b = record b {
  current_size = wrap64 (b.current_size +ℤ size);
  pool = insert ptr (record { owner = ptr; size = size; ref = pos 1 }) b.pool;
}

unfoldable pub release_big : Ptr → BigDataPool → BigDataPool
release_big ptr b = elim (lookup ptr b.pool) [
  | none ↦ b
  | some entry ↦ record b {
    pool = insert ptr (record entry { ref = wrap64 (entry.ref -ℤ pos 1) }) b.pool;
  }
]

-- Without `runtime.SetFinalizer` with nil: it takes a finalizer away, and ends the program if `ptr` is
-- not the start of an object.
unfoldable pub free : Ptr → ℤ → BigDataPool → BigDataPool
free ptr size b = elim (lookup ptr b.pool) [
  | none ↦ b
  | some _ ↦ record b { current_size = wrap64 (b.current_size -ℤ size); pool = erase ptr b.pool }
]

abbrev pub is_unused : BigDataEntry → Bool
is_unused e = eqb_ℤ e.ref (pos 0)

unfoldable pub cleanup_big :
    (List (Ptr × BigDataEntry) → List (Ptr × BigDataEntry)) → BigDataPool → BigDataPool
cleanup_big order b = record b { pool = clean is_unused 0 (order b.pool) }

-- `LifeCycleManager` without its `sync.Pool` of small buffers, whose content nothing reads.
pub record LifeCycleManager : Type 0 where
  pub medium : MediumPool
  pub big : BigDataPool

unfoldable pub new_life_cycle_manager : LifeCycleManager
unfolding new_big_data_pool
new_life_cycle_manager = record { medium = []; big = new_big_data_pool (pos 0) }

unfoldable pub cleanup :
    (MediumPool → MediumPool)
    → (List (Ptr × BigDataEntry) → List (Ptr × BigDataEntry))
    → ℤ
    → LifeCycleManager
    → LifeCycleManager
unfolding cleanup_medium cleanup_big
cleanup medium_order big_order now l = record {
  medium = cleanup_medium medium_order now l.medium;
  big = cleanup_big big_order l.big;
}
