-- ===== src/Pools/Tests.antt =====
-- The pools at concrete addresses and times.
use mathlib.Core.List.Perm
use chanjet.Common.{◌≡◌, refl, [], ◌∷◌}
use chanjet.Common.Count.{number_of}
use chanjet.Buffer.{Ptr}
use mathlib.Core.List.{Mem}
use chanjet.Common.Int.{ℤ, wrap64, ◌-ℤ◌, ◌≤ℤ◌, ltb_ℤ, pos, ◌+ℤ◌}
use chanjet.Common.Dict.{lookup}
use chanjet.Pools.{
  BigDataEntry, BigDataPool, put_big, release_big, free, cleanup_big, MediumPool, cleanup_medium,
  clean,
}
use chanjet.Pools.Clean.{cleanup_medium_lem}
use chanjet.Pools.Accounts.{total, size_at, unfreed, Excess, Excess-kept, dropped, cleanup-Excess}
use chanjet.Common.{◌+◌, length, min}

abbrev entry : BigDataEntry
entry = record { size = pos 40_000; owner = 8; ref = pos 0 }

abbrev pool : BigDataPool
pool = record { pool = (8, entry) ∷ []; current_size = pos 40_000; max_size = pos 0 }

pool-Excess : Excess (pos 0) pool
unfolding total ◌+ℤ◌ wrap64
pool-Excess = refl

Excess-kept_example :
    Excess (pos 0 +ℤ size_at (lookup 8 pool.pool)) (put_big 8 (pos 40_000) pool)
    × Excess (pos 0) (release_big 8 pool)
    × Excess (pos 0 +ℤ unfreed (pos 40_000) (lookup 8 pool.pool)) (free 8 (pos 40_000) pool)
unfolding lookup
Excess-kept_example = Excess-kept 8 (pos 40_000) (pos 0) pool (refl, tt) pool-Excess

-- 40 000 bytes stay counted after their entry is gone.
cleanup-Excess_example : Excess (pos 0 +ℤ dropped 0 pool.pool) (cleanup_big (λ m. m) pool)
cleanup-Excess_example = cleanup-Excess (λ m. m) (pos 0) pool (λ m. Perm.rfl) pool-Excess

leaked : (cleanup_big (λ m. m) pool).pool ≡ []
unfolding cleanup_big clean
leaked = refl

abbrev cache : MediumPool
cache = (16, pos 0) ∷ (24, pos 90_000_000_000) ∷ []

cleanup_medium_lem_example :
    let now = pos 100_000_000_000 in
    let after = cleanup_medium (λ m. m) now cache in
    ((ptr : Ptr) (t : ℤ) → Mem (ptr, t) cache → now -ℤ t ≤ℤ pos 60_000_000_000 → Mem (ptr, t) after)
    × ((ptr : Ptr) (t : ℤ) → Mem (ptr, t) after → Mem (ptr, t) cache)
    × (length after
          + min (number_of (λ (e : Ptr × ℤ). ltb_ℤ (pos 60_000_000_000) (now -ℤ e.1)) cache) 201
        ≡ length cache)
cleanup_medium_lem_example = cleanup_medium_lem (λ m. m) (pos 100_000_000_000) cache (λ m. Perm.rfl)
