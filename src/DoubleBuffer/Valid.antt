-- ===== src/DoubleBuffer/Valid.antt =====
-- The invariant of a stream between two calls.
use chanjet.Common.{List, Option, ◌≡◌, refl, Bool, true, false, ◌==◌, if◌then◌else◌, arith}
use chanjet.Common.Int.{ℤ}
use chanjet.Consts.{closed_state}
use chanjet.Config.{SwitchConfig, SwitchCondition}
use chanjet.Waiters.{WaiterManager}
use chanjet.Pools.{LifeCycleManager}
use chanjet.WrapHeap.Order as Heap
use chanjet.DoubleBuffer.{DoubleBuffer, Store}
use chanjet.DoubleBuffer.Ownership.{IsOwned, IsOwned-of_uses, uses}
use chanjet.DoubleBuffer.Numbering.{IsNumbered, waiting}

-- The buffers have one holder each, the pending heap is a heap, and while the stream is open the
-- waiting buffers are numbered without a gap.
pub record IsValid (d : DoubleBuffer) : Type 0 where
  pub owned : IsOwned d
  pub heap : Heap.IsValid d.pending_heap
  pub numbered : (d.state == closed_state) ≡ false → IsNumbered d

-- What holds of both branches holds of a test.
pub both {ℓ κ} :
    {A : Type ℓ} (P : A → Type κ) (b : Bool) {x y : A} → P x → P y → P (if b then x else y)
both P true p q = p
both P false p q = q

-- Only the pools may differ.
abbrev pub PoolsOnly : DoubleBuffer → DoubleBuffer → Type 0
PoolsOnly d d' = (pm : LifeCycleManager) × (d' ≡ record d { pm = pm })

-- The contents of the buffers, the pools and the count are free.
pub IsValid-new_parts :
    (d : DoubleBuffer) (store : Store) (pm : LifeCycleManager) (count : ℤ)
    → IsValid d
    → IsValid (record d { store = store; pm = pm; count = count })
unfolding uses waiting
IsValid-new_parts d store pm count v = record {
  owned =
      IsOwned-of_uses d (record d { store = store; pm = pm; count = count }) refl (λ a. omega arith)
        v.owned;
  heap = v.heap;
  numbered = λ o. record {
    dense = (v.numbered o).dense;
    started = (v.numbered o).started;
    ahead = (v.numbered o).ahead;
    bounded = (v.numbered o).bounded;
  };
}

-- So are the waiters, the goroutines that tell them, and the configuration.
pub IsValid-new_waiters :
    (d : DoubleBuffer) (wm : WaiterManager) (told : List ℤ)
    → IsValid d
    → IsValid (record d { wm = wm; told = told })
unfolding uses waiting
IsValid-new_waiters d wm told v = record {
  owned = IsOwned-of_uses d (record d { wm = wm; told = told }) refl (λ a. omega arith) v.owned;
  heap = v.heap;
  numbered = λ o. record {
    dense = (v.numbered o).dense;
    started = (v.numbered o).started;
    ahead = (v.numbered o).ahead;
    bounded = (v.numbered o).bounded;
  };
}

pub IsValid-new_config :
    (d : DoubleBuffer) (sc : SwitchConfig) (scd : SwitchCondition) (mode : Option ℤ)
    → IsValid d
    → IsValid (record d { sc = sc; scd = scd; read_mode = mode })
unfolding uses waiting
IsValid-new_config d sc scd mode v = record {
  owned =
      IsOwned-of_uses d (record d { sc = sc; scd = scd; read_mode = mode }) refl (λ a. omega arith)
        v.owned;
  heap = v.heap;
  numbered = λ o. record {
    dense = (v.numbered o).dense;
    started = (v.numbered o).started;
    ahead = (v.numbered o).ahead;
    bounded = (v.numbered o).bounded;
  };
}
