-- ===== src/MinHeap/Order.antt =====
-- The heap order, and what a sift owes to its caller.
use mathlib.Core.List.{Perm}
use mathlib.Core.List.Perm
use chanjet.Common.{ℕ, zero, suc, ◌≤◌, ◌<◌, ◌≡◌, refl, ◌∙◌, arith, length, Option, some}
use chanjet.Common.Int.{◌≤ℤ◌}
use chanjet.MinHeap.{MinHeap, at, key, swap, parent}
use chanjet.MinHeap.Swap.{entries, IsIndexed, length-swap, at-swap, swap-IsIndexed, swap_perm}

-- The first `n` entries are in heap order.
abbrev pub IsHeapTo : ℕ → MinHeap → Type 0
IsHeapTo n m = (c : ℕ) → 0 < c → c < n → key m (parent c) ≤ℤ key m c

-- `m'` is `m` with its first `n` entries rearranged into heap order.
pub record Sifted (n : ℕ) (m m' : MinHeap) : Type 0 where
  pub heap : IsHeapTo n m'
  pub same : Perm (entries m') (entries m)
  pub indexed : IsIndexed m → IsIndexed m'
  pub size : length m' ≡ length m
  pub rest : (c : ℕ) → n ≤ c → c < length m → at m' c ≡ at m c

-- The run ends, with a list that is sifted.
pub record Sifts (n : ℕ) (m : MinHeap) (r : Option MinHeap) : Type 0 where
  pub result : MinHeap
  pub ended : r ≡ some result
  pub sifted : Sifted n m result

pub Sifted-rfl : {n : ℕ} {m : MinHeap} → IsHeapTo n m → Sifted n m m
Sifted-rfl h = record {
  heap = h;
  same = Perm.rfl;
  indexed = λ i. i;
  size = refl;
  rest = λ c p q. refl;
}

-- A swap inside the first `n` entries may come first.
pub Sifts-swap :
    {n i j : ℕ} {m : MinHeap} {r : Option MinHeap}
    → n ≤ length m
    → i < n
    → j < n
    → Sifts n (swap m i j) r
    → Sifts n m r
Sifts-swap {n} {i} {j} {m} hn hi hj s =
    let li : i < length m = omega arith in
    let lj : j < length m = omega arith in
    record {
      result = s.result;
      ended = s.ended;
      sifted = record {
        heap = s.sifted.heap;
        same = Perm.trans s.sifted.same (swap_perm m i j li lj);
        indexed = λ h. s.sifted.indexed (swap-IsIndexed m i j li lj h);
        size = s.sifted.size ∙ length-swap m i j;
        rest = λ c p q.
            s.sifted.rest c p (omega (arith, length-swap m i j))
            ∙ ground (arith, at-swap m i j li lj c);
      };
    }

-- No entry is before the root.
pub root_least : (k : ℕ) (m : MinHeap) (n c : ℕ) → c < k → c < n → IsHeapTo n m → key m 0 ≤ℤ key m c
root_least zero m n c f h v = absurd (omega arith)
root_least (suc k) m n zero f h v = omega arith
root_least (suc k) m n (suc c) f h v = omega (
  arith,
  v (suc c) (omega arith) h,
  root_least k m n (parent (suc c)) (omega arith) (omega arith) v,
)
