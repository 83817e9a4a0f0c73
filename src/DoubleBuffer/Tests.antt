-- ===== src/DoubleBuffer/Tests.antt =====
-- A stream of buffers with two slots, from its start to the first read.
use chanjet.MinHeap
use chanjet.DoubleBuffer.Read
use chanjet.Common.{◌≡◌, refl, true, List, ◌++◌, [], ◌∷◌, some, arith, ◌⊎◌, ◌^◌, ◌-◌}
use chanjet.Common.Int.{pos, rem, ◌+ℤ◌, ◌<ℤ◌, wrap32, wrap64}
use chanjet.Config.{SwitchConfig, SwitchCondition}
use chanjet.Buffer.{Ptr, BufferItem, pop, push, calc_pos, len}
use chanjet.Buffer as B
use chanjet.WrapHeap as W
use chanjet.MinHeap.{up, append_item}
use chanjet.Waiters.{take_at}
use chanjet.Common.Count.{number_of}
use chanjet.DoubleBuffer.{
  DoubleBuffer, new_double_buffer, monitor_tick, draw_number, file_buffer, put_buffer,
}
use chanjet.DoubleBuffer.Write.{write}
use chanjet.DoubleBuffer.Read.{
  DataChunk, back_to_small_pool, register_read_mode, try_read, close, pick_buffer_from_heap,
}
use chanjet.DoubleBuffer.Valid.{IsValid}
use chanjet.DoubleBuffer.Outcome.{Found, Missed}
use chanjet.DoubleBuffer.TryRead.{Ended, try_read_ends}
use chanjet.DoubleBuffer.Closing.{Closed, close_ends}
use chanjet.DoubleBuffer.Steps.{Step, Reachable, reachable-IsValid}
use chanjet.DoubleBuffer.Delivery.{History, started, wrote, read, other}
use chanjet.DoubleBuffer.Delivery.Whole.{IsIdle, delivered_in_order}
use chanjet.Consts.ReadMode.{safe_read, validate}
use chanjet.Common.Run.{ok}
use chanjet.DoubleBuffer.Due.{due_items, pick_due}
use chanjet.DoubleBuffer.Isolation.{in_transit, write_isolated}

abbrev config : SwitchConfig
config = record { version = pos 1; percent = pos 80; time = pos 1_000_000; time_millis = pos 1 }

abbrev condition : SwitchCondition
condition = record { config = config; signals = 1; version = pos 1 }

abbrev item : BufferItem
item = record { ptr = 64; size = pos 10 }

abbrev fresh_stream : DoubleBuffer
fresh_stream = new_double_buffer 2 condition (pos 0)

-- One item is written, the channels are switched, and the full buffer draws the number 1.
abbrev written_stream : DoubleBuffer
written_stream = (write 128 0 (pos 0) item fresh_stream).0

abbrev switched_stream : DoubleBuffer
switched_stream = monitor_tick (λ _ _ _ _. true) 0 (pos 7) (pos 7) written_stream

abbrev numbered_stream : DoubleBuffer
numbered_stream = draw_number 0 switched_stream

first_draw : numbered_stream.numbered ≡ (pos 1, 1) ∷ []
unfolding new_double_buffer write monitor_tick draw_number take_at B.write push calc_pos rem ◌+ℤ◌
    wrap64
first_draw = refl

first_room : switched_stream.sequence <ℤ pos (2 ^ 63 - 2)
unfolding new_double_buffer write monitor_tick draw_number take_at B.write push calc_pos rem ◌+ℤ◌
    wrap64
first_room = omega arith

numbered-Reachable : Reachable 2 condition (pos 0) numbered_stream
unfolding new_double_buffer write monitor_tick draw_number take_at B.write push calc_pos rem ◌+ℤ◌
    wrap64
numbered-Reachable =
    Reachable.after
      (Reachable.after (Reachable.after Reachable.start (Step.written 128 0 (pos 0) item))
        (Step.ticked (λ _ _ _ _. true) 0 (pos 7) (pos 7)))
      (Step.drawn 0 first_room)

reachable-IsValid_example : IsValid numbered_stream
reachable-IsValid_example = reachable-IsValid 2 condition (pos 0) numbered_stream numbered-Reachable

-- The buffer at address 1 is filed in the heap.
abbrev filed_stream : DoubleBuffer
filed_stream = record numbered_stream {
  numbered = [];
  pending_heap = record { sequence = pos 1; buf = 1; index = pos 0 } ∷ [];
  told = pos 1 ∷ [];
}

filing : file_buffer 0 numbered_stream ≡ some filed_stream
unfolding new_double_buffer write monitor_tick draw_number take_at B.write push calc_pos rem ◌+ℤ◌
    wrap64 file_buffer W.push up append_item len wrap32
filing = refl

filed-Reachable : Reachable 2 condition (pos 0) filed_stream
filed-Reachable = Reachable.after numbered-Reachable (Step.filed 0 filing)

filed-IsValid : IsValid filed_stream
filed-IsValid = reachable-IsValid 2 condition (pos 0) filed_stream filed-Reachable

try_read_ends_example : Ended (try_read (pos 9) filed_stream)
try_read_ends_example = try_read_ends (pos 9) filed_stream filed-IsValid

close_ends_example : Closed (close filed_stream)
unfolding new_double_buffer write monitor_tick draw_number take_at B.write push calc_pos rem ◌+ℤ◌
    wrap64
close_ends_example = close_ends filed_stream refl filed-IsValid

pick_due_example :
    ((due_items filed_stream ≡ 1) × Found filed_stream (pick_buffer_from_heap filed_stream))
    ⊎ ((due_items filed_stream ≡ 0) × Missed filed_stream (pick_buffer_from_heap filed_stream))
unfolding new_double_buffer write monitor_tick draw_number take_at B.write push calc_pos rem ◌+ℤ◌
    wrap64
pick_due_example = pick_due filed_stream filed-IsValid refl refl

one_due : due_items filed_stream ≡ 1
unfolding new_double_buffer write monitor_tick draw_number take_at B.write push calc_pos rem ◌+ℤ◌
    wrap64 due_items number_of
one_due = refl

write_isolated_example : (write 128 0 (pos 9) item filed_stream).0.store 1 ≡ filed_stream.store 1
unfolding new_double_buffer write monitor_tick draw_number take_at B.write push calc_pos rem ◌+ℤ◌
    wrap64 in_transit number_of
write_isolated_example =
    write_isolated 128 0 (pos 9) item filed_stream 1 filed-IsValid (omega arith)

-- The reader asks for copies, and reads the item.
abbrev moded_stream : DoubleBuffer
moded_stream = record filed_stream { read_mode = some safe_read }

abbrev read_stream : DoubleBuffer
read_stream = record moded_stream {
  store = put_buffer moded_stream.store 1 (pop (moded_stream.store 1)).0;
  current_buffer = 1;
  current_sequence = pos 2;
  pending_heap = [];
}

abbrev chunk : DataChunk
chunk = record { ptr = 128; size = pos 10; is_copy = true; free = some back_to_small_pool }

moding : (register_read_mode safe_read filed_stream).0 ≡ moded_stream
unfolding register_read_mode validate
moding = refl

reading : try_read (pos 9) moded_stream ≡ some (read_stream, ok chunk)
unfolding new_double_buffer write monitor_tick draw_number take_at B.write push calc_pos rem ◌+ℤ◌
    wrap64 try_read pick_buffer_from_heap W.pick len pop B.reset MinHeap.down MinHeap.drop_last
    MinHeap.swap wrap32 Read.safe_chunk
reading = refl

abbrev stored_item : BufferItem
stored_item = record { ptr = 128; size = pos 10 }

before_read : History 2 condition (pos 0) moded_stream (stored_item ∷ []) []
unfolding new_double_buffer write monitor_tick draw_number take_at B.write push calc_pos rem ◌+ℤ◌
    wrap64 register_read_mode validate
before_read =
    other (Step.moded safe_read)
      (other (Step.filed 0 filing)
        (other (Step.drawn 0 first_room)
          (other (Step.ticked (λ _ _ _ _. true) 0 (pos 7) (pos 7))
            (wrote 128 0 (pos 0) item started refl refl) tt)
          refl)
        tt)
      tt

after_read : History 2 condition (pos 0) read_stream (stored_item ∷ []) (stored_item ∷ [])
after_read = read (pos 9) before_read reading

delivered_in_order_example :
    (rest : List BufferItem) × (stored_item ∷ [] ≡ (stored_item ∷ []) ++ rest)
    × (IsIdle read_stream → rest ≡ [])
delivered_in_order_example =
    delivered_in_order 2 condition (pos 0) read_stream (stored_item ∷ []) (stored_item ∷ [])
      (omega arith) after_read
