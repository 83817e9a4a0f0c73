-- ===== src/WrapHeap/Pick.antt =====
-- `Pick` takes out the item with the least sequence number.
use mathlib.Core.List.{Perm, perm_middle, append-nil, map-append}
use mathlib.Core.List.Perm
use chanjet.Common.{
  ℕ, zero, suc, ◌-◌, ◌<◌, ◌≡◌, refl, sym, ap, ◌∙◌, subst, List, [], ◌∷◌, ◌++◌, Option, some, arith,
  length, take, length-take, All, ◌==◌, false,
}
use chanjet.Common.Int.{ℤ, negsuc, ◌≤ℤ◌}
use chanjet.MinHeap.{MinHeapItem, MinHeap, at, key, swap, drop_last, down, parent}
use chanjet.MinHeap.Swap.{
  Entry, entry, entries, length-swap, at-swap, key-swap, swap-IsIndexed, swap_perm,
}
use chanjet.MinHeap.Order.{Sifts, root_least}
use chanjet.MinHeap.Down.{DownInv, down-Sifts}
use chanjet.WrapHeap.{pick}
use chanjet.WrapHeap.Order.{IsValid}

at-take : (n : ℕ) (m : MinHeap) (i : ℕ) → i < n → at (take n m) i ≡ at m i
at-take zero m i h = absurd (omega arith)
at-take (suc n) [] i h = refl
at-take (suc n) (x ∷ m) zero h = refl
at-take (suc n) (x ∷ m) (suc i) h = at-take n m i (omega arith)

take-append-last : (n : ℕ) (m : MinHeap) → length m ≡ suc n → take n m ++ (at m n ∷ []) ≡ m
take-append-last zero [] h = absurd (omega arith)
take-append-last zero (x ∷ []) h = refl
take-append-last zero (x ∷ y ∷ m) h = absurd (omega arith)
take-append-last (suc n) [] h = absurd (omega arith)
take-append-last (suc n) (x ∷ m) h = ap (◌∷◌ x) (take-append-last n m (omega arith))

append_perm : (xs : List Entry) (x : Entry) → Perm (xs ++ (x ∷ [])) (x ∷ xs)
append_perm xs x = rw (append-nil xs) at (perm_middle {a = x} xs [])

All-of_at :
    (k : ℤ) (m : MinHeap) → ((i : ℕ) → i < length m → k ≤ℤ key m i) → All (λ x. k ≤ℤ x.sequence) m
All-of_at k [] h = tt
All-of_at k (x ∷ m) h = (h 0 (omega arith), All-of_at k m (λ i p. h (suc i) (omega arith)))

-- What `Pick` leaves: the item with the least sequence number, marked as out of the heap, and a
-- valid heap of the others.
pub record Picked (m : MinHeap) (r : Option (Option MinHeapItem × MinHeap)) : Type 0 where
  pub item : MinHeapItem
  pub rest : MinHeap
  pub ended : r ≡ some (some item, rest)
  pub valid : IsValid rest
  pub same : Perm (entry item ∷ entries rest) (entries m)
  pub least : All (λ x. item.sequence ≤ℤ x.sequence) m
  pub out : item.index ≡ negsuc 0

module _ (m : MinHeap) (n : ℕ) (full : length m ≡ suc n) (v : IsValid m) where
  abbrev turned : MinHeap
  turned = swap m 0 n

  first : 0 < length m
  first = omega arith

  last : n < length m
  last = omega arith

  turned-DownInv : DownInv n turned 0
  turned-DownInv = record {
    edges = λ c h q ne.
        ground (arith, v.heap c, key-swap m 0 n first last c, key-swap m 0 n first last (parent c));
    bridged = λ c h q e p. absurd (omega arith);
  }

  sifted : Sifts n turned (down (suc n) turned 0 n)
  sifted =
      down-Sifts (suc n) n turned 0 (omega (arith, length-swap m 0 n)) (omega arith) turned-DownInv

  abbrev sunk : MinHeap
  sunk = sifted.result

  size : length sunk ≡ suc n
  size = sifted.sifted.size ∙ length-swap m 0 n ∙ full

  root : entry (at sunk n) ≡ entry (at m 0)
  root =
      ap entry (sifted.sifted.rest n (omega arith) (omega (arith, length-swap m 0 n)))
      ∙ ground (arith, at-swap m 0 n first last n)

  abbrev top : MinHeapItem
  top = record (at sunk n) { index = negsuc 0 }

  run : pick m ≡ some (some top, take n sunk)
  unfolding pick drop_last
  run =
      let some_left : (length m == 0) ≡ false = ground arith in
      let end : length m - 1 ≡ n = omega arith in
      let end' : length sunk - 1 ≡ n = omega (arith, size) in
      rw (some_left, end, sifted.ended, end')

  length-kept : length (take n sunk) ≡ n
  length-kept = omega (arith, length-take n sunk, size)

  kept-IsValid : IsValid (take n sunk)
  kept-IsValid = record {
    heap = λ c h q.
        ground
          (arith, length-kept, sifted.sifted.heap c, at-take n sunk c, at-take n sunk (parent c));
    indexed = λ c h. ground (
      arith,
      length-kept,
      size,
      at-take n sunk c,
      sifted.sifted.indexed (swap-IsIndexed m 0 n first last v.indexed) c,
    );
  }

  kept_perm : Perm (entry top ∷ entries (take n sunk)) (entries m)
  kept_perm =
      let whole : entries (take n sunk) ++ (entry top ∷ []) ≡ entries sunk =
        sym (map-append entry (take n sunk) (at sunk n ∷ []))
        ∙ ap entries (take-append-last n sunk size) in
      Perm.trans (Perm.symm (append_perm (entries (take n sunk)) (entry top))) (
        subst (λ xs. Perm xs (entries m)) (sym whole)
          (Perm.trans sifted.sifted.same (swap_perm m 0 n first last)))

  pick_full : Picked m (pick m)
  pick_full = record {
    item = top;
    rest = take n sunk;
    ended = run;
    valid = kept-IsValid;
    same = kept_perm;
    least = All-of_at top.sequence m (λ i h.
        let e : top.sequence ≡ key m 0 = ap (λ (x : Entry). x.0) root in
        subst (λ k. k ≤ℤ key m i) (sym e)
          (root_least (suc i) m (length m) i (omega arith) h v.heap));
    out = refl;
  }

-- Picking from a valid heap with an item in it ends; it returns an item with the least sequence
-- number, and leaves a valid heap of the other items.
pub pick_least : (m : MinHeap) → IsValid m → 0 < length m → Picked m (pick m)
pick_least m v h = pick_full m (length m - 1) (omega arith) v
