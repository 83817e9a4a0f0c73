-- ===== src/MinHeap.antt =====
-- core/min_heap.go: `MinHeapItem` and the methods of `MinHeap`, with the loops of the standard
-- library's container/heap that they serve. The loops test each index against the length, and the
-- theorems about them show that every index stays below it.
pub mod Swap
pub mod Order
pub mod Up
pub mod Down
use chanjet.Common.{
  ℕ, zero, suc, ◌+◌, ◌-◌, ◌*◌, ◌/◌, Bool, true, false, ◌&&◌, not, ◌||◌, List, [], ◌∷◌, ◌++◌, Option,
  none, some, length, get_or, set, take, ltb, leb, ◌==◌, if◌then◌else◌,
}
use chanjet.Common.Int.{ℤ, pos, negsuc, ltb_ℤ}
use chanjet.Buffer.{Ptr, nil}

-- `buf` is the address of the passive buffer; `sequence` is an int64.
pub record MinHeapItem : Type 0 where
  pub sequence : ℤ
  pub buf : Ptr
  pub index : ℤ

abbrev pub MinHeap : Type 0
MinHeap = List MinHeapItem

abbrev pub no_item : MinHeapItem
no_item = record { sequence = pos 0; buf = nil; index = pos 0 }

-- `m[i]`, for an index in range.
abbrev pub at : MinHeap → ℕ → MinHeapItem
at m i = get_or m i no_item

abbrev pub key : MinHeap → ℕ → ℤ
key m i = (at m i).sequence

unfoldable pub less : MinHeap → ℕ → ℕ → Bool
less m i j = ltb_ℤ (key m i) (key m j)

unfoldable pub swap : MinHeap → ℕ → ℕ → MinHeap
swap m i j =
    let x = at m i in
    let y = at m j in set (set m i (record y { index = pos i })) j (record x { index = pos j })

-- `Push` and `Pop` of `MinHeap`, which container/heap calls.
unfoldable pub append_item : MinHeap → MinHeapItem → MinHeap
append_item m item = m ++ (record item { index = pos (length m) } ∷ [])

unfoldable pub drop_last : MinHeap → MinHeapItem × MinHeap
drop_last m = let n = length m in (record (at m (n - 1)) { index = negsuc 0 }, take (n - 1) m)

-- `(j - 1) / 2` rounds to 0 at j = 0.
abbrev pub parent : ℕ → ℕ
parent j = (j - 1) / 2

-- The loop of `heap.up`, in `fuel` rounds; no value if they run out.
unfoldable pub up : ℕ → MinHeap → ℕ → Option MinHeap
up zero m j = none
up (suc fuel) m j =
    let i = parent j in
    let rest = up fuel (swap m i j) i in if i == j || not (less m j i) then some m else rest

abbrev pub smaller_child : MinHeap → ℕ → ℕ → ℕ
smaller_child m i n =
    let left = 2 * i + 1 in
    let right = left + 1 in if ltb right n && less m right left then right else left

-- The loop of `heap.down` over the first `n` entries.
unfoldable pub down : ℕ → MinHeap → ℕ → ℕ → Option MinHeap
down zero m i n = none
down (suc fuel) m i n =
    let j = smaller_child m i n in
    let rest = down fuel (swap m i j) j n in
    if leb n (2 * i + 1) || not (less m j i) then some m else rest
