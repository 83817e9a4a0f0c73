-- ===== src/DoubleBuffer/Read.antt =====
-- core/double_buffer.go: `tryRead` and what it calls, with core/chunk.go; `RegisterReadMode` and
-- `Close`. A call runs as a whole: nothing is pushed while `pickBufferFromHeap` sleeps.
use chanjet.Common.{
  ℕ, zero, suc, Bool, true, false, not, ◌&&◌, ◌||◌, ◌∷◌, Option, none, some, length, ◌==◌,
  if◌then◌else◌,
}
use chanjet.Common.Int.{ℤ, pos, ◌+ℤ◌, ltb_ℤ, leb_ℤ, eqb_ℤ, wrap64}
use chanjet.Common.Run.{Run, ok, err, panic, no_buffer, read_mode, read, invalid_read_mode}
use chanjet.Consts.{writing_state, closed_state}
use chanjet.Consts.ReadMode.{ReadMode, safe_read, zero_copy_read, validate}
use chanjet.Buffer.{Ptr, nil, SmartBuffer, reset, pop}
use chanjet.Buffer as B
use chanjet.WrapHeap as W
use chanjet.Pools.{is_valid, release_big, release_medium, free}
use chanjet.DoubleBuffer.{DoubleBuffer, put_buffer, small_data_threshold, large_data_threshold}

-- What `free` of a chunk does.
pub data Cleanup : Type 0 where
  back_to_small_pool : Cleanup
  recycled : Ptr → ℤ → Cleanup
  freed : Ptr → ℤ → Cleanup

-- `data` is the bytes at `ptr`, or a copy of them.
pub record DataChunk : Type 0 where
  pub ptr : Ptr
  pub size : ℤ
  pub is_copy : Bool
  pub free : Option Cleanup

-- The rounds of `pickBufferFromHeap`. No value only if a loop of the heap runs out of fuel.
unfoldable pub pick_rounds : ℕ → DoubleBuffer → Option (Bool × DoubleBuffer)
pick_rounds zero d = some (not (d.current_buffer == nil), d)
pick_rounds (suc rounds) d = elim (W.pick d.pending_heap) [
  | none ↦ none
  | some (none, heap) ↦ some (false, record d { pending_heap = heap })
  | some (some item, heap) ↦
      let found = record d {
        pending_heap = heap;
        current_buffer = item.buf;
        current_sequence = wrap64 (d.current_sequence +ℤ pos 1);
      } in
      let put_back : Option (Bool × DoubleBuffer) = elim (W.push heap item) [
        | none ↦ none
        | some heap' ↦ pick_rounds rounds (record d { pending_heap = heap' })
      ] in
      if eqb_ℤ item.sequence d.current_sequence
      then some (not (item.buf == nil), found)
      else put_back
]

abbrev pub max_retires : ℕ
max_retires = 3

unfoldable pub pick_buffer_from_heap : DoubleBuffer → Option (Bool × DoubleBuffer)
unfolding pick_rounds
pick_buffer_from_heap d = pick_rounds max_retires d

unfoldable pub register_read_mode : ReadMode → DoubleBuffer → DoubleBuffer × Run (Unit {0})
register_read_mode mode d =
    if validate mode
    then (record d { read_mode = some mode }, ok tt)
    else (d, err invalid_read_mode)

unfoldable pub recycle : Ptr → ℤ → DoubleBuffer → DoubleBuffer
unfolding release_big release_medium
recycle ptr size d =
    if ptr == nil || leb_ℤ size (pos 0)
    then d
    else if ltb_ℤ size small_data_threshold
    then d
    else if ltb_ℤ large_data_threshold size
    then record d { pm = record d.pm { big = release_big ptr d.pm.big } }
    else record d { pm = record d.pm { medium = release_medium ptr d.pm.medium } }

unfoldable pub run_cleanup : Cleanup → DoubleBuffer → DoubleBuffer
unfolding recycle
run_cleanup back_to_small_pool d = d
run_cleanup (recycled ptr size) d = recycle ptr size d
run_cleanup (freed ptr size) d = record d { pm = record d.pm { big = free ptr size d.pm.big } }

-- `DataChunk.Release`.
unfoldable pub release : DataChunk → DoubleBuffer → DataChunk × DoubleBuffer
unfolding run_cleanup
release c d = elim c.free [ none ↦ (c, d) | some f ↦ (record c { free = none }, run_cleanup f d) ]

-- `unsafe.Slice` panics on a negative length, and on nil with a positive one.
abbrev pub slice_fails : Ptr → ℤ → Bool
slice_fails ptr size = ltb_ℤ size (pos 0) || (ptr == nil && not (eqb_ℤ size (pos 0)))

-- The chunk of `safeRead`.
unfoldable pub safe_chunk : ℤ → Ptr → ℤ → DoubleBuffer → DataChunk
safe_chunk now ptr size d =
    let chunk : DataChunk = record {
      ptr = ptr;
      size = size;
      is_copy = false;
      free = some (recycled ptr size);
    } in
    if ltb_ℤ size small_data_threshold
    then record chunk { is_copy = true; free = some back_to_small_pool }
    else if ltb_ℤ large_data_threshold size
    then chunk
    else record chunk { is_copy = not (is_valid now ptr d.pm.medium) }

abbrev pub Reading : Type 0
Reading = DoubleBuffer × Run DataChunk

unfoldable pub after_safe_pop : ℤ → DoubleBuffer → Run (Ptr × ℤ) → Reading
after_safe_pop now d (ok (ptr, size)) =
    if eqb_ℤ size (pos 0)
    then (d, err read)
    else if slice_fails ptr size
    then (d, panic)
    else (d, ok (safe_chunk now ptr size d))
after_safe_pop now d (err e) = (d, err e)
after_safe_pop now d panic = (d, panic)

unfoldable pub after_zero_copy_pop : DoubleBuffer → Run (Ptr × ℤ) → Reading
after_zero_copy_pop d (ok (ptr, size)) =
    let released = record d { pm = record d.pm { big = release_big ptr d.pm.big } } in
    if ptr == nil then (d, err read) else if slice_fails ptr size then (d, panic) else (
      if ltb_ℤ large_data_threshold size then released else d,
      ok (record { ptr = ptr; size = size; is_copy = false; free = some (freed ptr size) }),
    )
after_zero_copy_pop d (err e) = (d, err e)
after_zero_copy_pop d panic = (d, panic)

-- The read that the mode asks for. Without a mode the pointer to it is nil.
unfoldable pub read_in : Option ReadMode → ℤ → DoubleBuffer → Reading
unfolding after_safe_pop after_zero_copy_pop
read_in none now d = (d, panic)
read_in (some mode) now d =
    let (s, r) = pop (d.store d.current_buffer) in
    let popped : DoubleBuffer = record d { store = put_buffer d.store d.current_buffer s } in
    if eqb_ℤ mode safe_read
    then after_safe_pop now popped r
    else if eqb_ℤ mode zero_copy_read
    then after_zero_copy_pop popped r
    else (d, err read_mode)

unfoldable pub read_current : ℤ → DoubleBuffer → Reading
unfolding read_in
read_current now d = read_in d.read_mode now d

-- The buffer that is read to its end goes back to the pool.
unfoldable pub give_back : DoubleBuffer → DoubleBuffer
unfolding reset
give_back d =
    let returned = record d {
      store = put_buffer d.store d.current_buffer (reset (d.store d.current_buffer));
      pool = d.current_buffer ∷ d.pool;
      current_buffer = nil;
    } in
    if d.current_buffer == nil then d else returned

unfoldable pub after_pick : ℤ → Option (Bool × DoubleBuffer) → Option Reading
unfolding read_current
after_pick now none = none
after_pick now (some (false, d)) = some (d, err no_buffer)
after_pick now (some (true, d)) = some (read_current now d)

unfoldable pub try_read : ℤ → DoubleBuffer → Option Reading
unfolding after_pick give_back pick_buffer_from_heap read_current
try_read now d =
    let next = after_pick now (pick_buffer_from_heap (give_back d)) in
    let here = some (read_current now d) in
    if d.current_buffer == nil || eqb_ℤ (B.len (d.store d.current_buffer)) (pos 0)
    then next
    else here

-- The loop of `drainProcessor`, in `fuel` rounds.
unfoldable pub drain : ℕ → DoubleBuffer → Option DoubleBuffer
drain zero d = if length d.pending_heap == 0 then some d else none
drain (suc fuel) d =
    let round : Option DoubleBuffer = elim (W.pick d.pending_heap) [
      | none ↦ none
      | some (none, heap) ↦ none
      | some (some item, heap) ↦ drain fuel (record d {
        pending_heap = heap;
        pool = if item.buf == nil then d.pool else item.buf ∷ d.pool;
      })
    ] in
    if length d.pending_heap == 0 then some d else round

-- `Close`, once the two background goroutines are done.
unfoldable pub close : DoubleBuffer → Option DoubleBuffer
unfolding drain
close d =
    let closed = record d {
      state = closed_state;
      stopped = true;
      pool = d.passive ∷ d.active ∷ d.pool;
    } in
    let drained = drain (length d.pending_heap) closed in
    if d.state == writing_state then drained else some d
