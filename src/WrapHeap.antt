-- ===== src/WrapHeap.antt =====
-- core/min_heap.go: `WrapHeap`, the pending heap of the double buffer. Its lock makes each call one
-- step; `heap.Push` and `heap.Pop` are those of the standard library.
mod Tests
pub mod Order
pub mod Pick
use mathlib.Core.Option
use chanjet.Common.{
  ℕ, zero, suc, ◌+◌, ◌-◌, List, [], ◌∷◌, Option, none, some, length, if◌then◌else◌, ◌==◌,
}
use chanjet.Common.Run.{Run, ok, panic}
use chanjet.MinHeap.{MinHeapItem, MinHeap, at, swap, append_item, drop_last, up, down}

unfoldable pub new_wrap_heap : MinHeap
new_wrap_heap = []

abbrev pub len : MinHeap → ℕ
len = length

-- `heap.Push`. No value only if the fuel of the loop runs out.
unfoldable pub push : MinHeap → MinHeapItem → Option MinHeap
push m item = let m' = append_item m item in up (len m') m' (len m' - 1)

-- `heap.Pop`.
unfoldable pub heap_pop : MinHeap → Option (MinHeapItem × MinHeap)
heap_pop m = let n = len m - 1 in Option.map drop_last (down (suc n) (swap m 0 n) 0 n)

-- The inner option is the nil pointer for an empty heap.
unfoldable pub pick : MinHeap → Option (Option MinHeapItem × MinHeap)
unfolding heap_pop
pick m =
    if len m == 0 then some (none, m) else Option.map (λ (item, m'). (some item, m')) (heap_pop m)

peek_items : MinHeap → Run MinHeapItem
peek_items [] = panic
peek_items (x ∷ _) = ok x

-- `h.heap[0]` panics on an empty heap.
unfoldable pub peek_first : MinHeap → Run MinHeapItem
unfolding peek_items
peek_first m = peek_items m
