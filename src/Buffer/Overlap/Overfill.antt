-- ===== src/Buffer/Overlap/Overfill.antt =====
-- Two calls of `Push` that both find the last free slot.
use native.Mathlib.Nat.{add-mod_right}
use chanjet.Common.{
  ℕ, zero, suc, ◌+◌, ◌-◌, ◌^◌, ◌<◌, ◌≡◌, refl, ap, ◌∙◌, true, false, List, [], ◌∷◌, some, set,
  get_or, get_or-set_self, arith, length, ◌==◌, length-set, get_elem?-eq-get_or,
}
use chanjet.Common.Int.{pos, ◌+ℤ◌, wrap32, leb_ℤ, eqb_ℤ}
use chanjet.Common.Run.{ok}
use chanjet.Consts.{read_only}
use chanjet.Buffer.{BufferItem, empty_item, SmartBuffer, calc_pos, load, store}
use chanjet.Buffer.Ring.{IsRing, count_up, before_step}
use chanjet.Buffer.Window.{before, slot, calc_pos-before, slot-lt}
use chanjet.Buffer.Overlap.Alone.{push_steps}
use chanjet.Buffer.Overlap.{
  PushAt, starting, room_seen, pushed, push_step, Crowd, step_among, schedule,
}

-- The goroutine at place `k` takes `m` operations, and then the order is `ks`.
unfoldable turns : ℕ → ℕ → List ℕ → List ℕ
turns zero k ks = ks
turns (suc m) k ks = k ∷ turns m k ks

-- The first call checks the state and the count, then the second one does, and then each goes on to
-- its end.
unfoldable pub crossed : List ℕ
unfolding turns
crossed = turns 2 0 (turns 2 1 (turns 4 0 (turns 4 1 [])))

slot-round : (cap t : ℕ) → 0 < cap → slot cap (t + cap) ≡ slot cap t
slot-round cap t h =
    let shift : t + cap + cap - 1 ≡ t + cap - 1 + cap = omega arith in rw (shift, add-mod_right)

-- The buffer after a `Push` of `x` that is past its checks.
abbrev with_item : BufferItem → SmartBuffer → SmartBuffer
with_item x s = record s {
  head = wrap32 (s.head +ℤ pos 1);
  buf = store s.buf (calc_pos s.capacity s.head) x;
  count = wrap32 (s.count +ℤ pos 1);
}

abbrev two : SmartBuffer → BufferItem × PushAt → BufferItem × PushAt → Crowd
two s p q = record { buffer = s; pushers = p ∷ q ∷ [] }

turns_of_first :
    (m : ℕ) (ks : List ℕ) (x : BufferItem) (at : PushAt) (q : BufferItem × PushAt) (s : SmartBuffer)
    → schedule (turns m 0 ks) (two s (x, at) q)
      ≡ schedule ks (two (push_steps m x at s).1 (x, (push_steps m x at s).0) q)
unfolding schedule turns push_steps step_among
turns_of_first zero ks x at q s = refl
turns_of_first (suc m) ks x at q s =
    turns_of_first m ks x (push_step x at s).0 q (push_step x at s).1

turns_of_second :
    (m : ℕ) (ks : List ℕ) (p : BufferItem × PushAt) (y : BufferItem) (at : PushAt) (s : SmartBuffer)
    → schedule (turns m 1 ks) (two s p (y, at))
      ≡ schedule ks (two (push_steps m y at s).1 p (y, (push_steps m y at s).0))
unfolding schedule turns push_steps step_among
turns_of_second zero ks p y at s = refl
turns_of_second (suc m) ks p y at s =
    turns_of_second m ks p y (push_step y at s).0 (push_step y at s).1

checks :
    (x : BufferItem) (s : SmartBuffer)
    → (s.state == read_only) ≡ false
    → leb_ℤ (pos s.capacity) s.count ≡ false
    → push_steps 2 x starting s ≡ (room_seen, s)
unfolding push_steps push_step
checks x s open_ room = rw (open_, room) refl

goes_on :
    (x u : BufferItem) (s : SmartBuffer)
    → load s.buf (calc_pos s.capacity s.head) ≡ some u
    → push_steps 4 x room_seen s ≡ (pushed (ok tt), with_item x s)
unfolding push_steps push_step
goes_on x u s first =
    let same : eqb_ℤ s.head s.head ≡ true = ground arith in rw (same, push_step, first) refl

-- Both calls succeed if both positions are in the slice.
crossed_run :
    (x y u v : BufferItem) (s : SmartBuffer)
    → (s.state == read_only) ≡ false
    → leb_ℤ (pos s.capacity) s.count ≡ false
    → load s.buf (calc_pos s.capacity s.head) ≡ some u
    → load (with_item x s).buf (calc_pos s.capacity (with_item x s).head) ≡ some v
    → schedule crossed (two s (x, starting) (y, starting))
      ≡ two (with_item y (with_item x s)) (x, pushed (ok tt)) (y, pushed (ok tt))
unfolding crossed schedule
crossed_run x y u v s open_ room first second =
    turns_of_first 2 (turns 2 1 (turns 4 0 (turns 4 1 []))) x starting (y, starting) s
    ∙ rw (checks x s open_ room) (
        turns_of_second 2 (turns 4 0 (turns 4 1 [])) (x, room_seen) y starting s
        ∙ rw (checks y s open_ room) (
            turns_of_first 4 (turns 4 1 []) x room_seen (y, room_seen) s
            ∙ rw (goes_on x u s first) (
                turns_of_second 4 [] (x, pushed (ok tt)) y room_seen (with_item x s)
                ∙ rw (goes_on y v (with_item x s) second) refl)))

-- The slots of the next two writes, of which the second one is that of the next read.
module _ {t n : ℕ} {s : SmartBuffer} (r : IsRing t n s) (last : suc n ≡ s.capacity)
    (fits : t + suc n < 2 ^ 31) where
  some_slot : 0 < s.capacity
  some_slot = omega (arith, last)

  at_head : calc_pos s.capacity s.head ≡ pos (slot s.capacity (t + n))
  at_head = rw r.head_at (calc_pos-before s.capacity (t + n) some_slot)

  at_next : calc_pos s.capacity (wrap32 (s.head +ℤ pos 1)) ≡ pos (slot s.capacity t)
  at_next =
      let next : wrap32 (s.head +ℤ pos 1) ≡ before (suc (t + n)) =
        rw r.head_at (before_step (t + n) (omega arith)) in
      let shift : suc (t + n) ≡ t + s.capacity = omega (arith, last) in
      rw (next, calc_pos-before s.capacity (suc (t + n)) some_slot)
        (ap pos (rw shift (slot-round s.capacity t some_slot)))

  at_tail : calc_pos s.capacity s.tail ≡ pos (slot s.capacity t)
  at_tail = rw r.tail_at (calc_pos-before s.capacity t some_slot)

  last_stored :
      (x y : BufferItem)
      → load (with_item y (with_item x s)).buf (calc_pos s.capacity s.tail) ≡ some y
  last_stored x y =
      let buf = set s.buf (slot s.capacity (t + n)) x in
      let wide : slot s.capacity t < length buf = omega (
        arith,
        r.sized,
        length-set s.buf (slot s.capacity (t + n)) x,
        slot-lt s.capacity t some_slot,
      ) in
      rw (at_next, at_tail, at_head)
        (get_elem?-eq-get_or (set buf (slot s.capacity t) y) (slot s.capacity t) empty_item
            (omega (arith, wide, length-set buf (slot s.capacity t) y))
          ∙ ap some (get_or-set_self buf (slot s.capacity t) y empty_item wide))

-- On a ring with one free slot that takes writes and whose indices stay below 2^31, two calls of
-- Push that interleave so that both pass their checks, and the first then runs to its end before
-- the second goes on, both end without an error: the count is one above the capacity, and the
-- item of the second call stands in the slot of the oldest item, where the next Pop looks.
pub overfilled :
    (t n : ℕ) (s : SmartBuffer) (x y : BufferItem)
    → IsRing t n s
    → suc n ≡ s.capacity
    → (s.state == read_only) ≡ false
    → t + suc n < 2 ^ 31
    → suc (suc n) < 2 ^ 31
    → let after =
        schedule crossed (record { buffer = s; pushers = (x, starting) ∷ (y, starting) ∷ [] }) in
      (after.pushers ≡ (x, pushed (ok tt)) ∷ (y, pushed (ok tt)) ∷ [])
      × (after.buffer.count ≡ pos (suc s.capacity))
      × (after.buffer.tail ≡ s.tail)
      × (load after.buffer.buf (calc_pos s.capacity s.tail) ≡ some y)
overfilled t n s x y r last open_ fits small =
    let more = some_slot r last fits in
    let i = slot s.capacity (t + n) in
    let first : load s.buf (calc_pos s.capacity s.head) ≡ some (get_or s.buf i empty_item) =
      rw (at_head r last fits) (
        get_elem?-eq-get_or s.buf i empty_item
          (omega (arith, r.sized, slot-lt s.capacity (t + n) more))) in
    let second : load (with_item x s).buf (calc_pos s.capacity (with_item x s).head)
        ≡ some (get_or (set s.buf i x) (slot s.capacity t) empty_item) =
      rw (at_next r last fits, at_head r last fits)
        (get_elem?-eq-get_or (set s.buf i x) (slot s.capacity t) empty_item
          (omega (arith, r.sized, length-set s.buf i x, slot-lt s.capacity t more))) in
    let counted : wrap32 (wrap32 (s.count +ℤ pos 1) +ℤ pos 1) ≡ pos (suc s.capacity) =
      rw (r.counted, count_up n (omega arith), count_up (suc n) small)
        (ap (λ m. pos (suc m)) last) in
    let run = crossed_run x y _ _ s open_ (ground (arith, r.counted, last)) first second in
    (
      ap (λ c. c.pushers) run,
      ap (λ c. c.buffer.count) run ∙ counted,
      ap (λ c. c.buffer.tail) run,
      ap (λ c. load c.buffer.buf (calc_pos s.capacity s.tail)) run ∙ last_stored r last fits x y,
    )
