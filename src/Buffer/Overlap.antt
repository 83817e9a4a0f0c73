-- ===== src/Buffer/Overlap.antt =====
-- core/component/smart_buffer.go: `Push` and `Pop` in their atomic operations, for calls of several
-- goroutines that overlap. The store and the load of a slot are one operation each.
pub mod Alone
pub mod Bound
pub mod Overfill
mod Tests
use chanjet.Common.{
  ℕ, zero, suc, Bool, true, false, List, [], ◌∷◌, Option, none, some, ◌==◌, if◌then◌else◌,
}
use chanjet.Common.Int.{ℤ, pos, negsuc, ◌+ℤ◌, leb_ℤ, eqb_ℤ, wrap32}
use chanjet.Common.Run.{Run, ok, err, panic, buffer_read_only}
use chanjet.Consts.{write_only, read_only}
use chanjet.Buffer.{Ptr, nil, BufferItem, empty_item, SmartBuffer, calc_pos, load, store}

-- Where a `Push` stands: before it loads the state, before it loads the count, before it marks a full
-- buffer, before it loads the head, before it swaps the head, with a claimed position, with a stored
-- item, and at its end.
pub data PushAt : Type 0 where
  starting open_seen full_seen room_seen : PushAt
  head_seen claimed : ℤ → PushAt
  filled : PushAt
  pushed : Run (Unit {0}) → PushAt

-- The next operation of a `Push` of `x`.
unfoldable pub push_step : BufferItem → PushAt → SmartBuffer → PushAt × SmartBuffer
push_step x starting s =
    if s.state == read_only then (pushed (err buffer_read_only), s) else (open_seen, s)
push_step x open_seen s = if leb_ℤ (pos s.capacity) s.count then (full_seen, s) else (room_seen, s)
push_step x full_seen s = (
  pushed (err buffer_read_only),
  record s { state = if s.state == write_only then read_only else s.state },
)
push_step x room_seen s = (head_seen s.head, s)
push_step x (head_seen h) s =
    if eqb_ℤ s.head h then (claimed h, record s { head = wrap32 (h +ℤ pos 1) }) else (starting, s)
push_step x (claimed h) s =
    let p = calc_pos s.capacity h in
    elim (load s.buf p) [
      | none ↦ (pushed panic, s)
      | some _ ↦ (filled, record s { buf = store s.buf p x })
    ]
push_step x filled s = (pushed (ok tt), record s { count = wrap32 (s.count +ℤ pos 1) })
push_step x (pushed r) s = (pushed r, s)

-- Where a `Pop` stands; `looking` has the reads of the slot that are left and the item read last.
pub data PopAt : Type 0 where
  entering some_seen : PopAt
  tail_seen : ℤ → PopAt
  looking : ℤ → ℕ → BufferItem → PopAt
  found : ℤ → BufferItem → PopAt
  emptied : BufferItem → PopAt
  popped : Run (Ptr × ℤ) → PopAt

unfoldable pub pop_step : PopAt → SmartBuffer → PopAt × SmartBuffer
pop_step entering s =
    if eqb_ℤ s.count (pos 0) then (popped (ok (nil, pos 0)), s) else (some_seen, s)
pop_step some_seen s = (tail_seen s.tail, s)
pop_step (tail_seen t) s =
    if eqb_ℤ s.tail t
    then (looking t 3 empty_item, record s { tail = wrap32 (t +ℤ pos 1) })
    else (entering, s)
pop_step (looking t zero item) s = (found t item, s)
pop_step (looking t (suc tries) last) s = elim (load s.buf (calc_pos s.capacity t)) [
  | none ↦ (popped panic, s)
  | some item ↦ (if item.ptr == nil then looking t tries item else found t item, s)
]
pop_step (found t item) s =
    (emptied item, record s { buf = store s.buf (calc_pos s.capacity t) empty_item })
pop_step (emptied item) s =
    (popped (ok (item.ptr, item.size)), record s { count = wrap32 (s.count +ℤ negsuc 0) })
pop_step (popped r) s = (popped r, s)

-- Several goroutines in `Push`, each with its item, on one buffer.
pub record Crowd : Type 0 where
  pub buffer : SmartBuffer
  pub pushers : List (BufferItem × PushAt)

-- The goroutine at place `k` takes its next operation.
unfoldable pub step_among :
    ℕ → List (BufferItem × PushAt) → SmartBuffer → List (BufferItem × PushAt) × SmartBuffer
unfolding push_step
step_among k [] s = ([], s)
step_among zero ((x, at) ∷ rest) s = let (at', s') = push_step x at s in ((x, at') ∷ rest, s')
step_among (suc k) (p ∷ rest) s = let (rest', s') = step_among k rest s in (p ∷ rest', s')

unfoldable pub schedule : List ℕ → Crowd → Crowd
unfolding step_among
schedule [] c = c
schedule (k ∷ ks) c =
    let (pushers, buffer) = step_among k c.pushers c.buffer in
    schedule ks (record { buffer = buffer; pushers = pushers })
