-- ===== src/MinHeap/Swap.antt =====
-- What `Swap` does: it trades two entries and keeps each entry's index field at its place.
use mathlib.Core.List.{Perm}
use chanjet.Common.{
  ℕ, zero, suc, ◌<◌, ◌≡◌, refl, sym, ap, ◌∙◌, subst, List, [], ◌∷◌, arith, length, get_or, set,
  length-set, map, ◌==◌, if◌then◌else◌,
}
use chanjet.Common.Int.{ℤ, pos}
use chanjet.Common.Exchange.{get_or-set, exchange_perm}
use chanjet.Buffer.{Ptr}
use chanjet.MinHeap.{MinHeapItem, MinHeap, no_item, at, key, swap}

-- An item without its place.
abbrev pub Entry : Type 0
Entry = ℤ × Ptr

abbrev pub entry : MinHeapItem → Entry
entry x = (x.sequence, x.buf)

abbrev pub entries : MinHeap → List Entry
entries = map entry

-- Each item knows its place.
abbrev pub IsIndexed : MinHeap → Type 0
IsIndexed m = (i : ℕ) → i < length m → (at m i).index ≡ pos i

pub length-swap : (m : MinHeap) (i j : ℕ) → length (swap m i j) ≡ length m
unfolding swap
length-swap m i j = length-set _ j _ ∙ length-set m i _

map-set :
    (m : MinHeap) (i : ℕ) (x : MinHeapItem) → entries (set m i x) ≡ set (entries m) i (entry x)
map-set [] i x = refl
map-set (y ∷ m) zero x = refl
map-set (y ∷ m) (suc i) x = ap (◌∷◌ (entry y)) (map-set m i x)

pub get_or-entries : (m : MinHeap) (i : ℕ) → get_or (entries m) i (entry no_item) ≡ entry (at m i)
get_or-entries [] i = refl
get_or-entries (y ∷ m) zero = refl
get_or-entries (y ∷ m) (suc i) = get_or-entries m i

pub length-entries : (m : MinHeap) → length (entries m) ≡ length m
length-entries [] = refl
length-entries (y ∷ m) = ap suc (length-entries m)

module _ (m : MinHeap) (i j : ℕ) (hi : i < length m) (hj : j < length m) where
  pub at-swap :
      (c : ℕ)
      → at (swap m i j) c ≡ (
          if j == c
          then record (at m i) { index = pos j }
          else if i == c
          then record (at m j) { index = pos i }
          else at m c)
  unfolding swap
  at-swap c = ground (
    arith,
    length-set m i (record (at m j) { index = pos i }),
    get_or-set no_item (set m i (record (at m j) { index = pos i })) j c
        (record (at m i) { index = pos j }),
    get_or-set no_item m i c (record (at m j) { index = pos i }),
  )

  pub key-swap :
      (c : ℕ)
      → key (swap m i j) c ≡ (if j == c then key m i else if i == c then key m j else key m c)
  key-swap c = ground (arith, at-swap c)

  pub swap-IsIndexed : IsIndexed m → IsIndexed (swap m i j)
  swap-IsIndexed h c hc = ground (arith, at-swap c, h c, length-swap m i j)

  pub swap_perm : Perm (entries (swap m i j)) (entries m)
  unfolding swap
  swap_perm =
      let xs = entries m in
      let same : entries (swap m i j)
          ≡ set (set xs i (get_or xs j (entry no_item))) j (get_or xs i (entry no_item)) =
        rw (get_or-entries m i, get_or-entries m j)
          (map-set _ j _ ∙ ap (λ ys. set ys j (entry (at m i))) (map-set m i _)) in
      subst (λ ys. Perm ys xs) (sym same)
        (exchange_perm (entry no_item) xs i j (omega (arith, length-entries m))
          (omega (arith, length-entries m)))
