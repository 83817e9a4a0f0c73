-- ===== src/Buffer/Wrap.antt =====
-- What the ring does when an int32 index passes 2^31 - 1.
use native.Mathlib.Nat.{mod-lt, add-mod, mod-eq_of_lt, mod-eq-sub-mod, mod-mod, mod_self, zero-mod}
use chanjet.Common.{
  ℕ, zero, suc, ◌+◌, ◌-◌, ◌%◌, ◌^◌, ◌<◌, ◌≡◌, ◌↔◌, refl, arith, dec_lt, ◌∙◌, sym, ap,
}
use chanjet.Common.Int.{pos, negsuc, ◌+ℤ◌, rem, wrap32}
use chanjet.Buffer.{calc_pos}

-- The slot of the index `pos n`, and of the index -n.
calc_pos-pos : (c n : ℕ) → 0 < c → calc_pos c (pos n) ≡ pos (n % c)
unfolding calc_pos rem
calc_pos-pos c n h = ground (arith, mod-mod n c)

calc_pos-neg : (c n : ℕ) → 0 < c → calc_pos c (negsuc n) ≡ pos ((c - suc n % c) % c)
unfolding calc_pos rem ◌+ℤ◌
calc_pos-neg c n h = ground (arith, mod-lt (suc n) h, mod_self c)

-- Steps back from slot `r` of the start and steps on from it meet where twice `r` is a full round.
opposite_pos : (c r : ℕ) → 0 < r → r < c → ((c - r) % c ≡ r) ↔ ((r + r) % c ≡ 0)
opposite_pos c r p h =
    let back : (c - r) % c ≡ c - r = mod-eq_of_lt (omega arith) in
    elim (dec_lt (r + r) c) [
      | yes under ↦ let on : (r + r) % c ≡ r + r = mod-eq_of_lt under in omega arith
      | no over ↦
          let on : (r + r) % c ≡ r + r - c =
            mod-eq-sub-mod {n = r + r} {m = c} (omega arith) ∙ mod-eq_of_lt (omega arith) in
          omega arith
    ]

opposite : (c r : ℕ) → r < c → ((c - r) % c ≡ r) ↔ ((r + r) % c ≡ 0)
opposite c zero h = let e : c - 0 ≡ c = omega arith in (λ _. zero-mod c, λ _. rw e (mod_self c))
opposite c (suc r) h = opposite_pos c (suc r) (omega arith) h

doubled : (c : ℕ) → (2 ^ 31 % c + 2 ^ 31 % c) % c ≡ 2 ^ 32 % c
doubled c = sym (add-mod (2 ^ 31) (2 ^ 31) c)

after_last : wrap32 (pos (2 ^ 31 - 1) +ℤ pos 1) ≡ negsuc (2 ^ 31 - 1)
unfolding wrap32 ◌+ℤ◌
after_last = refl

wider : pos (2 ^ 31 - 1) +ℤ pos 1 ≡ pos (2 ^ 31)
unfolding ◌+ℤ◌
wider = refl

pos-injective : {m n : ℕ} → pos m ≡ pos n → m ≡ n
pos-injective e = cc

-- The index after 2^31 - 1 wraps to the slot that a wider index would have next, exactly when the
-- capacity divides 2^32.
pub wrap_in_step :
    (c : ℕ)
    → 0 < c
    → (calc_pos c (wrap32 (pos (2 ^ 31 - 1) +ℤ pos 1)) ≡ calc_pos c (pos (2 ^ 31 - 1) +ℤ pos 1))
      ↔ (2 ^ 32 % c ≡ 0)
wrap_in_step c h =
    let (to, from) = opposite c (2 ^ 31 % c) (mod-lt (2 ^ 31) h) in
    rw (after_last, wider, calc_pos-neg c (2 ^ 31 - 1) h, calc_pos-pos c (2 ^ 31) h)
      (λ e. sym (doubled c) ∙ to (pos-injective e), λ e. ap pos (from (doubled c ∙ e)))
