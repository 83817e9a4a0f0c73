-- ===== src/Buffer/Window.antt =====
-- Which slot of the ring holds which item: the positions of `calcPos`, and the items of a run of
-- consecutive positions.
use native.Mathlib.Nat.{add-zero, add-mod_right, mod-mod}
use chanjet.Common.{
  ℕ, zero, suc, ◌+◌, ◌-◌, ◌%◌, ◌<◌, ◌≤◌, ◌≡◌, ◌≢◌, refl, sym, ap, ap₂, subst, List, [], ◌∷◌, ◌++◌,
  arith, length, get_or, set, get_or-set_ne, get_or-set_self,
}
use chanjet.Common.Int.{ℤ, pos, negsuc, ◌+ℤ◌, rem}
use chanjet.Buffer.{BufferItem, empty_item, calc_pos}

-- The value of `head` or `tail` after `n` steps from its start, -1.
abbrev pub before : ℕ → ℤ
before zero = negsuc 0
before (suc n) = pos n

abbrev pub slot : ℕ → ℕ → ℕ
slot cap n = (n + cap - 1) % cap

slot-suc : (cap n : ℕ) → 0 < cap → slot cap (suc n) ≡ n % cap
slot-suc cap n h = let shift : suc n + cap - 1 ≡ n + cap = omega arith in rw (shift, add-mod_right)

pub calc_pos-before : (cap n : ℕ) → 0 < cap → calc_pos cap (before n) ≡ pos (slot cap n)
unfolding calc_pos rem ◌+ℤ◌
calc_pos-before cap zero h = grind arith
calc_pos-before cap (suc n) h = ground (arith, slot-suc cap n h, mod-mod n cap)

pub slot-lt : (cap n : ℕ) → 0 < cap → slot cap n < cap
slot-lt cap n h = omega arith

-- Fewer than `cap` steps further on is another slot.
pub slot-ne : (cap n k : ℕ) → 0 < k → k < cap → slot cap (n + k) ≢ slot cap n
slot-ne cap n k h hk = grind arith

slot-ne_below : (cap p t : ℕ) → p < t → t < p + cap → slot cap p ≢ slot cap t
slot-ne_below cap p t h k e =
    let whole : p + (t - p) ≡ t = omega arith in
    slot-ne cap p (t - p) (omega arith) (omega arith) (rw whole (sym e))

module _ (cap : ℕ) where
  -- The items at `n` positions from `t` on, oldest first.
  abbrev pub window : List BufferItem → ℕ → ℕ → List BufferItem
  window buf t zero = []
  window buf t (suc n) = get_or buf (slot cap t) empty_item ∷ window buf (suc t) n

  pub length-window : (buf : List BufferItem) (t n : ℕ) → length (window buf t n) ≡ n
  length-window buf t zero = refl
  length-window buf t (suc n) = ap suc (length-window buf (suc t) n)

  -- A write to the slot of a position outside the window, less than `cap` before or after it.
  pub window-set_below :
      (buf : List BufferItem) (t p n : ℕ) (x : BufferItem)
      → p < t
      → t + n ≤ p + cap
      → window (set buf (slot cap p) x) t n ≡ window buf t n
  window-set_below buf t p zero x h k = refl
  window-set_below buf t p (suc n) x h k =
      ap₂ ◌∷◌ (get_or-set_ne buf x empty_item (slot-ne_below cap p t h (omega arith)))
        (window-set_below buf (suc t) p n x (omega arith) (omega arith))

  pub window-set_above :
      (buf : List BufferItem) (t n : ℕ) (x : BufferItem)
      → n < cap
      → cap ≤ length buf
      → window (set buf (slot cap (t + n)) x) t (suc n) ≡ window buf t n ++ (x ∷ [])
  window-set_above buf t zero x h k =
      rw add-zero (ap (λ y. y ∷ []) (get_or-set_self buf (slot cap t) x empty_item (omega arith)))
  window-set_above buf t (suc n) x h k =
      let shift : t + suc n ≡ suc t + n = omega arith in
      ap₂ ◌∷◌ (get_or-set_ne buf x empty_item (slot-ne cap t (suc n) (omega arith) h)) (
        subst
          (λ m. window (set buf (slot cap m) x) (suc t) (suc n) ≡ window buf (suc t) n ++ (x ∷ []))
          (sym shift) (window-set_above buf (suc t) n x (omega arith) k))
