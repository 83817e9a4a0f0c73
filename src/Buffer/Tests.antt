-- ===== src/Buffer/Tests.antt =====
-- Runs of a `SmartBuffer` at concrete inputs, and its theorems applied to them.
use chanjet.Common.{ℕ, ◌-◌, ◌%◌, ◌^◌, ◌≡◌, ◌↔◌, refl, List, [], ◌∷◌, false, arith}
use chanjet.Common.Int.{pos, negsuc, ◌+ℤ◌, wrap32, rem}
use chanjet.Common.Run.{ok, err, buffer_read_only}
use chanjet.Consts.{write_only}
use chanjet.Buffer.{push, BufferItem, empty_item, nil, SmartBuffer, new_smart_buffer, calc_pos}
use chanjet.Buffer.Queue
use chanjet.Buffer.Queue.{Op, write_op, pop_op, len_op, reset_op, wrote, popped, measured}
use chanjet.Buffer.Calls.{step, run}
use chanjet.Buffer.Fifo.{run_refines}
use chanjet.Buffer.Wrap.{wrap_in_step}

abbrev item : ℕ → BufferItem
item n = record { ptr = n; size = pos n }

abbrev fresh : SmartBuffer
fresh = record {
  buf = empty_item ∷ empty_item ∷ [];
  head = negsuc 0;
  tail = negsuc 0;
  count = pos 0;
  capacity = 2;
  state = write_only;
  sem_closed = false;
}

-- The third write finds the buffer full, and so it stays after a read.
abbrev script : List Op
script =
    write_op (item 7)
    ∷ write_op (item 8)
    ∷ write_op (item 9)
    ∷ pop_op
    ∷ write_op (item 9)
    ∷ len_op
    ∷ pop_op
    ∷ pop_op
    ∷ []

run-script :
    run script fresh
    ≡ wrote (ok tt)
      ∷ wrote (ok tt)
      ∷ wrote (err buffer_read_only)
      ∷ popped (ok (7, pos 7))
      ∷ wrote (err buffer_read_only)
      ∷ measured (pos 1)
      ∷ popped (ok (8, pos 8))
      ∷ popped (ok (nil, pos 0))
      ∷ []
unfolding run step push calc_pos rem ◌+ℤ◌ wrap32
run-script = refl

made : new_smart_buffer (pos 2) ≡ ok fresh
unfolding new_smart_buffer
made = refl

run_refines_example :
    run script fresh ≡ Queue.run 2 script (record { items = []; state = write_only })
run_refines_example = run_refines 2 fresh script (omega arith) made (omega arith)

wrap_in_step_example :
    (calc_pos 3 (wrap32 (pos (2 ^ 31 - 1) +ℤ pos 1)) ≡ calc_pos 3 (pos (2 ^ 31 - 1) +ℤ pos 1))
    ↔ (2 ^ 32 % 3 ≡ 0)
wrap_in_step_example = wrap_in_step 3 (omega arith)
