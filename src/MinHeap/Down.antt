-- ===== src/MinHeap/Down.antt =====
-- `heap.down` restores a heap in which one entry may be too near the root.
use chanjet.Common.{
  ℕ, zero, suc, ◌+◌, ◌-◌, ◌*◌, ◌≤◌, ◌<◌, ◌≡◌, ◌≢◌, refl, ◌⊎◌, inl, inr, arith, length, le→leb,
  lt→not_leb, Bool-cases, dec_lt,
}
use chanjet.Common.Int.{◌≤ℤ◌, ◌<ℤ◌}
use chanjet.MinHeap.{MinHeap, key, less, swap, parent, smaller_child, down}
use chanjet.MinHeap.Swap.{length-swap, key-swap}
use chanjet.MinHeap.Order.{Sifts, Sifted-rfl, Sifts-swap}

-- Only the edges below `i` may be out of order, among the first `n` entries.
pub record DownInv (n : ℕ) (m : MinHeap) (i : ℕ) : Type 0 where
  pub edges : (c : ℕ) → 0 < c → c < n → parent c ≢ i → key m (parent c) ≤ℤ key m c
  pub bridged : (c : ℕ) → 0 < c → c < n → parent c ≡ i → 0 < i → key m (parent i) ≤ℤ key m c

record IsSmallerChild (n : ℕ) (m : MinHeap) (i j : ℕ) : Type 0 where
  inside : j < n
  child : (j ≡ 2 * i + 1) ⊎ (j ≡ 2 * i + 2)
  least : (c : ℕ) → 0 < c → c < n → parent c ≡ i → key m j ≤ℤ key m c

only_children : (c i : ℕ) → 0 < c → parent c ≡ i → (c ≡ 2 * i + 1) ⊎ (c ≡ 2 * i + 1 + 1)
only_children c i h e = omega arith

smaller_child-IsSmallerChild :
    (n : ℕ) (m : MinHeap) (i : ℕ) → 2 * i + 1 < n → IsSmallerChild n m i (smaller_child m i n)
unfolding less
smaller_child-IsSmallerChild n m i h = record {
  inside = ground arith;
  child = ground arith;
  least = λ c p q e. ground (arith, only_children c i p e);
}

swap-DownInv :
    (n : ℕ) (m : MinHeap) (i j : ℕ)
    → n ≤ length m
    → DownInv n m i
    → IsSmallerChild n m i j
    → key m j <ℤ key m i
    → DownInv n (swap m i j) j
swap-DownInv n m i j hn v s below =
    let k = key-swap m i j (omega (arith, s.inside, s.child)) (omega (arith, s.inside)) in
    let up_j : parent j ≡ i = omega (arith, s.child) in
    record {
      edges = λ c h q ne.
          ground
            (arith, k c, k (parent c), v.edges c, v.bridged j, s.least c, s.child, up_j, s.inside);
      bridged = λ c h q e p. ground (arith, up_j, k c, k (parent j), v.edges c, s.child);
    }

pub down-Sifts :
    (fuel n : ℕ) (m : MinHeap) (i : ℕ)
    → n ≤ length m
    → n - i < fuel
    → DownInv n m i
    → Sifts n m (down fuel m i n)
unfolding down
down-Sifts zero n m i hn f v = absurd (omega arith)
down-Sifts (suc fuel) n m i hn f v = elim (dec_lt (2 * i + 1) n) [
  | no leaf ↦ rw (le→leb n (2 * i + 1) (omega arith)) (record {
    result = m;
    ended = refl;
    sifted = Sifted-rfl (λ c h q. v.edges c h q (λ e. absurd (omega arith)));
  })
  | yes inner ↦
      let j = smaller_child m i n in
      let s = smaller_child-IsSmallerChild n m i inner in
      elim (Bool-cases (less m j i)) [
        | inl below ↦
            rw (lt→not_leb n (2 * i + 1) inner, below)
              (Sifts-swap hn (omega arith) s.inside (
                down-Sifts fuel n (swap m i j) j (omega (arith, length-swap m i j))
                  (omega (arith, s.child, s.inside))
                  (swap-DownInv n m i j hn v s (unfold less in (ground arith)))))
        | inr settled ↦
            rw (lt→not_leb n (2 * i + 1) inner, settled)
              (record {
                result = m;
                ended = refl;
                sifted =
                    Sifted-rfl (λ c h q. unfold less in (ground (arith, v.edges c, s.least c)));
              })
      ]
]
