-- ===== src/Buffer/Overlap/Tests.antt =====
-- Three calls of `Push` that overlap on a buffer of two slots.
use chanjet.Common.{◌++◌, if◌then◌else◌, ℕ, ◌≡◌, ◌<◌, refl, [], ◌∷◌, false, some, arith}
use chanjet.Common.Int.{pos, negsuc}
use chanjet.Common.Run.{ok, err, buffer_read_only}
use chanjet.Consts.{write_only}
use chanjet.Buffer.{BufferItem, empty_item, SmartBuffer, calc_pos, load}
use chanjet.Buffer.Ring.{IsRing}
use chanjet.Buffer.Fifo.Effect.{items, refuses, front, rest_of}
use chanjet.Buffer.Overlap.{starting, pushed, entering, popped, schedule}
use chanjet.Buffer.Overlap.Alone.{push_steps, pop_steps, calls_alone}
use chanjet.Buffer.Overlap.Bound.{newcomers, overlapping_bound}
use chanjet.Buffer.Overlap.Overfill.{crossed, overfilled}

abbrev item : ℕ → BufferItem
item n = record { ptr = n; size = pos n }

-- The first of the two slots is taken.
abbrev one_free : SmartBuffer
one_free = record {
  buf = empty_item ∷ item 7 ∷ [];
  head = pos 0;
  tail = negsuc 0;
  count = pos 1;
  capacity = 2;
  state = write_only;
  sem_closed = false;
}

one_free-IsRing : IsRing 0 1 one_free
one_free-IsRing = record {
  tail_at = refl;
  head_at = refl;
  counted = refl;
  room = omega arith;
  sized = refl;
  small = omega arith;
}

calls_alone_example :
    let (at, after) = push_steps 6 (item 8) starting one_free in
    let (end, left) = pop_steps 9 entering one_free in
    (at ≡ pushed (if refuses 1 one_free then err buffer_read_only else ok tt))
    × (items after
        ≡ (if refuses 1 one_free then items one_free else items one_free ++ (item 8 ∷ [])))
    × (end ≡ popped (ok (front (items one_free))))
    × (items left ≡ rest_of (items one_free))
calls_alone_example = calls_alone 0 1 (item 8) one_free one_free-IsRing (omega arith)

overlapping_bound_example :
    let after =
      schedule
        (0 ∷ 1 ∷ 2 ∷ 0 ∷ 1 ∷ 2 ∷ 2 ∷ 1 ∷ [])
        (record { buffer = one_free; pushers = newcomers (item 8 ∷ item 9 ∷ item 10 ∷ []) }) in
    (m : ℕ) × (after.buffer.count ≡ pos m) × (m < 5) × (after.buffer.capacity ≡ 2)
overlapping_bound_example =
    overlapping_bound (item 8) (item 9 ∷ item 10 ∷ []) 1 one_free
      (0 ∷ 1 ∷ 2 ∷ 0 ∷ 1 ∷ 2 ∷ 2 ∷ 1 ∷ []) refl (omega arith) (omega arith)

overfilled_example :
    let after =
      schedule crossed
        (record { buffer = one_free; pushers = (item 8, starting) ∷ (item 9, starting) ∷ [] }) in
    (after.pushers ≡ (item 8, pushed (ok tt)) ∷ (item 9, pushed (ok tt)) ∷ [])
    × (after.buffer.count ≡ pos 3)
    × (after.buffer.tail ≡ negsuc 0)
    × (load after.buffer.buf (calc_pos 2 (negsuc 0)) ≡ some (item 9))
overfilled_example =
    overfilled 0 1 one_free (item 8) (item 9) one_free-IsRing refl refl (omega arith) (omega arith)
