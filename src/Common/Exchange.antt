-- ===== src/Common/Exchange.antt =====
-- A list with two entries exchanged is a permutation of it.
use mathlib.Core.List.Perm
use Prim.Native.Nat.{ℕ, zero, suc, ◌<◌}
use mathlib.Core.Path.{◌≡◌, refl, ap, ◌∙◌, subst}
use mathlib.Core.List.{List, [], ◌∷◌, Perm, Permᴰ}
use mathlib.Core.Logic.{∥∥₁_elim}
use native.Mathlib.Nat.{ℕ_set}
use native.Mathlib.Omega.{arith}
use chanjet.Common.Tests.{◌==◌, if◌then◌else◌}
use chanjet.Common.Lists.{length, get_or, set, length-set}

module _ {ℓ} {A : Type ℓ} (d : A) where
  pub get_or-set :
      (xs : List A) (i j : ℕ) (v : A)
      → i < length xs
      → get_or (set xs i v) j d ≡ (if i == j then v else get_or xs j d)
  get_or-set [] i j v h = absurd (omega arith)
  get_or-set (x ∷ xs) zero zero v h = refl
  get_or-set (x ∷ xs) zero (suc j) v h = ground arith
  get_or-set (x ∷ xs) (suc i) zero v h = ground arith
  get_or-set (x ∷ xs) (suc i) (suc j) v h = ground (arith, get_or-set xs i j v)

  -- What a write puts in is what it takes out.
  set_perm :
      (xs : List A) (i : ℕ) (v : A) → i < length xs → Perm (get_or xs i d ∷ set xs i v) (v ∷ xs)
  set_perm [] i v h = absurd (omega arith)
  set_perm (x ∷ xs) zero v h = Perm.swap v x xs
  set_perm (x ∷ xs) (suc i) v h =
      Perm.trans (Perm.swap x (get_or xs i d) (set xs i v))
        (Perm.trans (Perm.cons x (set_perm xs i v (omega arith))) (Perm.swap v x xs))

  pub exchange_perm :
      (xs : List A) (i j : ℕ)
      → i < length xs
      → j < length xs
      → Perm (set (set xs i (get_or xs j d)) j (get_or xs i d)) xs
  exchange_perm xs i j hi hj =
      let ys = set xs i (get_or xs j d) in
      let same : get_or ys j d ≡ get_or xs j d =
        ground (arith, get_or-set xs i j (get_or xs j d) hi) in
      let back =
        subst (λ y. Perm (y ∷ set ys j (get_or xs i d)) (get_or xs i d ∷ ys)) same
          (set_perm ys j (get_or xs i d) (omega (arith, length-set xs i (get_or xs j d)))) in
      Perm.cons_inv (Perm.trans back (set_perm xs i (get_or xs j d) hi))

module _ {ℓ} {A : Type ℓ} where
  length-permᴰ : {xs ys : List A} → Permᴰ xs ys → length xs ≡ length ys
  length-permᴰ Permᴰ.nil = refl
  length-permᴰ (Permᴰ.cons _ p) = ap suc (length-permᴰ p)
  length-permᴰ (Permᴰ.swap _ _) = refl
  length-permᴰ (Permᴰ.trans p q) = length-permᴰ p ∙ length-permᴰ q

  pub length-perm : {xs ys : List A} → Perm xs ys → length xs ≡ length ys
  length-perm p = ∥∥₁_elim p (ℕ_set _ _) length-permᴰ
