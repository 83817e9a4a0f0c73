-- ===== src/WrapHeap/Order.antt =====
-- The pending heap between two calls.
use mathlib.Core.List.{Perm, perm_middle, append-nil, map-append}
use mathlib.Core.List.Perm
use chanjet.Common.{
  ℕ, zero, suc, ◌-◌, ◌<◌, ◌≡◌, refl, sym, subst, [], ◌∷◌, ◌++◌, Option, some, arith, length,
  length-append,
}
use chanjet.Common.Int.{pos}
use chanjet.MinHeap.{MinHeapItem, MinHeap, at, append_item, parent}
use chanjet.MinHeap.Swap.{entry, entries, IsIndexed}
use chanjet.MinHeap.Order.{IsHeapTo}
use chanjet.MinHeap.Up.{UpInv, up-Sifts}
use chanjet.WrapHeap.{push, new_wrap_heap}

-- In heap order, and each item knows its place.
pub record IsValid (m : MinHeap) : Type 0 where
  pub heap : IsHeapTo (length m) m
  pub indexed : IsIndexed m

at-append : (m : MinHeap) (x : MinHeapItem) (i : ℕ) → i < length m → at (m ++ (x ∷ [])) i ≡ at m i
at-append [] x i h = absurd (omega arith)
at-append (y ∷ m) x zero h = refl
at-append (y ∷ m) x (suc i) h = at-append m x i (omega arith)

at-append_last : (m : MinHeap) (x : MinHeapItem) → at (m ++ (x ∷ [])) (length m) ≡ x
at-append_last [] x = refl
at-append_last (y ∷ m) x = at-append_last m x

entries-append :
    (m : MinHeap) (x : MinHeapItem) → Perm (entries (m ++ (x ∷ []))) (entry x ∷ entries m)
entries-append m x =
    rw map-append (rw (append-nil (entries m)) at (perm_middle {a = entry x} (entries m) []))

pub new-IsValid : IsValid new_wrap_heap
unfolding new_wrap_heap
new-IsValid = record { heap = λ c h i. absurd (omega arith); indexed = λ i h. absurd (omega arith) }

-- What `Push` leaves: a valid heap of the same entries with one more.
pub record Pushed (m : MinHeap) (item : MinHeapItem) (r : Option MinHeap) : Type 0 where
  pub result : MinHeap
  pub ended : r ≡ some result
  pub valid : IsValid result
  pub same : Perm (entries result) (entry item ∷ entries m)

module _ (m : MinHeap) (item : MinHeapItem) (v : IsValid m) where
  abbrev placed : MinHeapItem
  placed = record item { index = pos (length m) }

  length-placed : length (m ++ (placed ∷ [])) ≡ suc (length m)
  length-placed = omega (arith, length-append m (placed ∷ []))

  placed-UpInv : UpInv (m ++ (placed ∷ [])) (length m)
  placed-UpInv = record {
    inside = omega (arith, length-placed);
    edges = λ c h q ne.
        ground
          (arith, length-placed, v.heap c, at-append m placed c, at-append m placed (parent c));
    bridged = λ c h q e p. absurd (omega (arith, length-placed));
  }

  placed-IsIndexed : IsIndexed (m ++ (placed ∷ []))
  placed-IsIndexed c h =
      ground (arith, length-placed, v.indexed c, at-append m placed c, at-append_last m placed)

  -- Pushing onto a valid heap ends, and adds exactly the item.
  pub push_correct : Pushed m item (push m item)
  unfolding push append_item
  push_correct =
      let last : length (m ++ (placed ∷ [])) - 1 ≡ length m = omega (arith, length-placed) in
      let s =
        up-Sifts (length (m ++ (placed ∷ []))) (m ++ (placed ∷ [])) (length m)
          (omega (arith, length-placed)) placed-UpInv in
      rw last (record {
        result = s.result;
        ended = s.ended;
        valid = record {
          heap = subst (λ n. IsHeapTo n s.result) (sym s.sifted.size) s.sifted.heap;
          indexed = s.sifted.indexed placed-IsIndexed;
        };
        same = Perm.trans s.sifted.same (entries-append m placed);
      })
