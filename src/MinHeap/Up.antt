-- ===== src/MinHeap/Up.antt =====
-- `heap.up` restores a heap in which one entry may be too far from the root.
use chanjet.Common.{
  ℕ, zero, suc, ◌<◌, ◌≡◌, ◌≢◌, refl, inl, inr, arith, length, ◌==◌, Bool-cases, true, false, dec_lt,
  subst,
}
use chanjet.Common.Int.{◌≤ℤ◌, ◌<ℤ◌, ltb_ℤ}
use chanjet.MinHeap.{MinHeap, key, less, swap, parent, up}
use chanjet.MinHeap.Swap.{length-swap, key-swap}
use chanjet.MinHeap.Order.{Sifts, Sifted-rfl, Sifts-swap}

-- Only the edge above `j` may be out of order.
pub record UpInv (m : MinHeap) (j : ℕ) : Type 0 where
  pub inside : j < length m
  pub edges : (c : ℕ) → 0 < c → c < length m → c ≢ j → key m (parent c) ≤ℤ key m c
  pub bridged : (c : ℕ) → 0 < c → c < length m → parent c ≡ j → 0 < j → key m (parent j) ≤ℤ key m c

swap-UpInv :
    (m : MinHeap) (j : ℕ)
    → UpInv m j
    → 0 < j
    → key m j <ℤ key m (parent j)
    → UpInv (swap m (parent j) j) (parent j)
swap-UpInv m j v pos below =
    let p = parent j in
    let above : p < length m = omega (arith, v.inside) in
    let k = key-swap m p j above v.inside in
    record {
      inside = omega (arith, length-swap m p j);
      edges =
          λ c h i ne. ground (arith, k c, k (parent c), v.edges c, v.bridged c, length-swap m p j);
      bridged =
          λ c h i e q. ground (arith, k c, k (parent p), v.edges c, v.edges p, length-swap m p j);
    }

pub up-Sifts :
    (fuel : ℕ) (m : MinHeap) (j : ℕ) → j < fuel → UpInv m j → Sifts (length m) m (up fuel m j)
unfolding up less
up-Sifts zero m j f v = absurd (omega arith)
up-Sifts (suc fuel) m j f v =
    let p = parent j in
    elim (dec_lt 0 j) [
      | no root ↦
          let top : j ≡ 0 = omega arith in
          let stay : (p == j) ≡ true = ground arith in
          rw stay (record {
            result = m;
            ended = refl;
            sifted = Sifted-rfl (λ c h i. v.edges c h i (λ e. absurd (omega arith)));
          })
      | yes inner ↦
          let move : (p == j) ≡ false = ground arith in
          elim (Bool-cases (ltb_ℤ (key m j) (key m p))) [
            | inl below ↦
                rw (move, below)
                  (Sifts-swap (omega arith) (omega (arith, v.inside)) v.inside (
                    subst (λ n. Sifts n (swap m p j) (up fuel (swap m p j) p)) (length-swap m p j)
                      (up-Sifts fuel (swap m p j) p (omega arith)
                        (swap-UpInv m j v inner (ground arith)))))
            | inr settled ↦
                rw (move, settled)
                  (record {
                    result = m;
                    ended = refl;
                    sifted = Sifted-rfl (λ c h i. ground (arith, v.edges c));
                  })
          ]
    ]
