-- ===== src/DoubleBuffer.antt =====
-- core/double_buffer.go: the stream with its parts, one call at a time. A `DoubleBuffer` holds the
-- smart buffers by address; a goroutine that a switch starts is a value in `spawned`, then in
-- `numbered` once it has drawn its sequence number, then in `told`, and each of its stages is a step.
-- Arguments stand for the clock, `now` in nanoseconds, and for what the code leaves open: the place
-- in `sync.Pool` that `Get` takes from, and the addresses of small copies.
pub mod Write
pub mod Read
pub mod Outcome
pub mod Switch
pub mod Handover
pub mod Numbering
pub mod Valid
pub mod Reading
pub mod Writing
pub mod Closing
pub mod Steps
mod Tests
pub mod Due
pub mod Isolation
pub mod TryRead
pub mod Ownership
pub mod Blocking
pub mod Delivery
use chanjet.Common.{
  ℕ, zero, suc, ◌<◌, Bool, true, false, List, [], ◌∷◌, ◌++◌, Option, none, some, ◌==◌,
  if◌then◌else◌,
}
use chanjet.Common.Int.{ℤ, pos, negsuc, ◌+ℤ◌, ◌-ℤ◌, ltb_ℤ, leb_ℤ, eqb_ℤ, wrap32, wrap64}
use chanjet.Common.Run.{Run, ok, err, panic, buffer_close, no_buffer, is_ok}
use chanjet.Consts.{writing_state, closed_state, read_only}
use chanjet.Buffer.{Ptr, nil, BufferItem, SmartBuffer, blank, set_state}
use chanjet.Buffer as B
use chanjet.Config.{SwitchConfig, SwitchCondition, get_config, receive, milliseconds}
use chanjet.MinHeap.{MinHeapItem, MinHeap}
use chanjet.MinHeap.Swap.{Entry}
use chanjet.WrapHeap.{new_wrap_heap}
use chanjet.WrapHeap as W
use chanjet.Waiters.{WaiterManager, new_waiter_manager, take_at, Order, notify}
use chanjet.Pools.{LifeCycleManager, new_life_cycle_manager, put_big, put_medium}

abbrev pub Store : Type 0
Store = Ptr → SmartBuffer

abbrev pub put_buffer : Store → Ptr → SmartBuffer → Store
put_buffer store a v b = if a == b then v else store b

-- `size` and `count` are int32; `last_switch`, in milliseconds, and the two numbers are int64. From
-- `fresh` on no address is in use; `pool` is what `sync.Pool` keeps.
pub record DoubleBuffer : Type 0 where
  pub store : Store
  pub fresh : Ptr
  pub pool : List Ptr
  pub active : Ptr
  pub passive : Ptr
  pub current_buffer : Ptr
  pub stopped : Bool
  pub size : ℕ
  pub count : ℤ
  pub state : ℕ
  pub last_switch : ℤ
  pub sequence : ℤ
  pub current_sequence : ℤ
  pub pending_heap : MinHeap
  pub sc : SwitchConfig
  pub scd : SwitchCondition
  pub read_mode : Option ℤ
  pub wm : WaiterManager
  pub pm : LifeCycleManager
  pub spawned : List Ptr
  pub numbered : List Entry
  pub told : List ℤ

-- `d.pool.Get()`.
unfoldable pub get_buffer : ℕ → DoubleBuffer → Ptr × DoubleBuffer
get_buffer choice d = elim (take_at choice d.pool) [
  | none ↦
      (d.fresh, record d { store = put_buffer d.store d.fresh (blank d.size); fresh = suc d.fresh })
  | some (a, rest) ↦ (a, record d { pool = rest })
]

-- `NewDoubleBuffer` without options, after its panic on a negative size. The two buffers that it
-- makes first are given up for two that it gets from the pool.
unfoldable pub new_double_buffer : ℕ → SwitchCondition → ℤ → DoubleBuffer
unfolding get_config new_waiter_manager new_life_cycle_manager new_wrap_heap
new_double_buffer size sc now = record {
  store = λ _. blank size;
  fresh = 3;
  pool = [];
  active = 1;
  passive = 2;
  current_buffer = nil;
  stopped = false;
  size = size;
  count = pos 0;
  state = writing_state;
  last_switch = milliseconds now;
  sequence = pos 0;
  current_sequence = pos 1;
  pending_heap = new_wrap_heap;
  sc = get_config sc;
  scd = sc;
  read_mode = none;
  wm = new_waiter_manager;
  pm = new_life_cycle_manager;
  spawned = [];
  numbered = [];
  told = [];
}

abbrev pub small_data_threshold : ℤ
small_data_threshold = pos 1024

abbrev pub large_data_threshold : ℤ
large_data_threshold = pos 32_768

-- `swapChannels`.
unfoldable pub swap_channels : Ptr → DoubleBuffer → Ptr × DoubleBuffer
swap_channels new_buf d = (d.active, record d { active = d.passive; passive = new_buf })

-- `switchChannel`, at time `now`. The state is `SwitchingState` only inside the call.
unfoldable pub switch_channel : ℕ → ℤ → DoubleBuffer → DoubleBuffer
unfolding get_buffer swap_channels set_state
switch_channel choice now d =
    let closing = record d {
      store = put_buffer d.store d.active (set_state read_only (d.store d.active));
    } in
    let (new_buf, got) = get_buffer choice closing in
    let (buf, swapped) = swap_channels new_buf got in
    let switched = record swapped {
      count = pos 0;
      last_switch = milliseconds now;
      spawned = swapped.spawned ++ (buf ∷ []);
    } in
    if d.state == writing_state then switched else d

-- The goroutine that `switchChannel` starts, at place `k` among those: it draws a number,
unfoldable pub draw_number : ℕ → DoubleBuffer → DoubleBuffer
draw_number k d = elim (take_at k d.spawned) [
  | none ↦ d
  | some (buf, rest) ↦
      let n = wrap64 (d.sequence +ℤ pos 1) in
      record d { sequence = n; spawned = rest; numbered = (n, buf) ∷ d.numbered }
]

abbrev pub take_entry : ℕ → List Entry → Option (Entry × List Entry)
take_entry k [] = none
take_entry zero (e ∷ es) = some (e, es)
take_entry (suc k) (e ∷ es) = elim (take_entry k es) [
  | none ↦ none
  | some (f, rest) ↦ some (f, e ∷ rest)
]

-- pushes the buffer and starts another goroutine with its length, which is read in the same step: a
-- read of the buffer between the push and `buf.Len()` is left out,
unfoldable pub file_buffer : ℕ → DoubleBuffer → Option DoubleBuffer
file_buffer k d = elim (take_entry k d.numbered) [
  | none ↦ some d
  | some ((n, buf), rest) ↦
      elim (W.push d.pending_heap (record { sequence = n; buf = buf; index = pos 0 })) [
        | none ↦ none
        | some heap ↦
            some (record d {
              pending_heap = heap;
              numbered = rest;
              told = B.len (d.store buf) ∷ d.told;
            })
      ]
]

abbrev pub take_note : ℕ → List ℤ → Option (ℤ × List ℤ)
take_note k [] = none
take_note zero (n ∷ ns) = some (n, ns)
take_note (suc k) (n ∷ ns) = elim (take_note k ns) [
  | none ↦ none
  | some (m, rest) ↦ some (m, n ∷ rest)
]

unfoldable pub told_by :
    List ℤ → DoubleBuffer → Option (Run WaiterManager) → Option (Run DoubleBuffer)
told_by rest d none = none
told_by rest d (some (ok wm)) = some (ok (record d { wm = wm; told = rest }))
told_by rest d (some (err e)) = some (err e)
told_by rest d (some panic) = some panic

unfoldable pub tell_next : Order → DoubleBuffer → Option (ℤ × List ℤ) → Option (Run DoubleBuffer)
unfolding told_by
tell_next order d none = some (ok d)
tell_next order d (some (n, rest)) = told_by rest d (notify order n d.wm)

-- which tells the waiters. Of those goroutines any may be the next, the one at place `k`.
unfoldable pub tell : Order → ℕ → DoubleBuffer → Option (Run DoubleBuffer)
unfolding tell_next
tell order k d = tell_next order d (take_note k d.told)

-- `needSwitch`, with the strategy's own `needSwitch` as an argument. `elapsed` is in nanoseconds.
unfoldable pub need_switch : (ℤ → ℤ → ℤ → ℤ → Bool) → ℤ → DoubleBuffer → Bool × DoubleBuffer
unfolding get_config receive
need_switch strategy elapsed d =
    let (scd, signalled) = receive d.scd in
    let d' = if signalled then record d { scd = scd; sc = get_config scd } else d in
    (strategy d.count (pos d.size) elapsed d'.sc.time, d')

-- A tick of `swapMonitor`.
unfoldable pub monitor_tick : (ℤ → ℤ → ℤ → ℤ → Bool) → ℕ → ℤ → ℤ → DoubleBuffer → DoubleBuffer
unfolding need_switch switch_channel
monitor_tick strategy choice elapsed now d =
    let (due, d') = need_switch strategy elapsed d in
    let switched = switch_channel choice now d' in if due then switched else d'
