-- ===== src/Common/Count.antt =====
-- How many items of a list pass a test.
use mathlib.Core.List.{List, [], ◌∷◌, ◌++◌, Perm, Permᴰ}
use mathlib.Core.Logic.{∥∥₁_elim}
use mathlib.Core.Path.{◌≡◌, refl, ap, ◌∙◌}
use mathlib.Core.Bool.{Bool}
use Prim.Native.Nat.{ℕ, ◌+◌}
use native.Mathlib.Nat.{ℕ_set}
use native.Mathlib.Omega.{arith}
use chanjet.Common.Tests.{if◌then◌else◌}

module _ {ℓ} {A : Type ℓ} (p : A → Bool) where
  unfoldable pub number_of : List A → ℕ
  number_of [] = 0
  number_of (x ∷ xs) = (if p x then 1 else 0) + number_of xs

  pub number_of-append : (xs ys : List A) → number_of (xs ++ ys) ≡ number_of xs + number_of ys
  unfolding number_of
  number_of-append [] ys = omega arith
  number_of-append (x ∷ xs) ys = omega (arith, number_of-append xs ys)

  number_of-permᴰ : {xs ys : List A} → Permᴰ xs ys → number_of xs ≡ number_of ys
  unfolding number_of
  number_of-permᴰ Permᴰ.nil = refl
  number_of-permᴰ (Permᴰ.cons {a} {b} e r) =
      rw e (ap (λ n. (if p b then 1 else 0) + n) (number_of-permᴰ r))
  number_of-permᴰ (Permᴰ.swap {a} {b} {a'} {b'} {l} e f) = rw (e, f) (omega arith)
  number_of-permᴰ (Permᴰ.trans r s) = number_of-permᴰ r ∙ number_of-permᴰ s

  pub number_of-perm : {xs ys : List A} → Perm xs ys → number_of xs ≡ number_of ys
  number_of-perm r = ∥∥₁_elim r (ℕ_set _ _) number_of-permᴰ
