-- ===== src/DoubleBuffer/Blocking/Tests.antt =====
-- A reader that blocks on a stream of buffers with two slots.
use mathlib.Core.List.{mem-cons_self}
use mathlib.Core.List.Perm
use chanjet.Common.{◌≡◌, refl, false, [], ◌∷◌, some, arith}
use chanjet.Common.Int.{pos}
use chanjet.Config.{SwitchCondition}
use chanjet.Waiters.{Waiter, Order, register, new_waiter_manager, take_at, delete}
use chanjet.Waiters.Invariant as W
use chanjet.Waiters.Wake.{Walks}
use chanjet.WrapHeap as H
use chanjet.DoubleBuffer.{DoubleBuffer, new_double_buffer, tell}
use chanjet.DoubleBuffer.Read.{try_read, close, pick_buffer_from_heap}
use chanjet.DoubleBuffer.Valid.{IsValid, IsValid-new_waiters}
use chanjet.DoubleBuffer.Steps.{reachable-IsValid, Reachable}
use chanjet.DoubleBuffer.Due.{due_items}
use chanjet.Common.Count.{number_of}
use chanjet.DoubleBuffer.Blocking.{entered, missed, told_case, Choices, after_first, advance}
use chanjet.DoubleBuffer.Blocking.Wakeup.{Woken, tell_wakes}
use chanjet.DoubleBuffer.Blocking.Stop.{Stopped, close_wakes, Unheard, tell-Unheard}

abbrev condition : SwitchCondition
condition = record {
  config = record { version = pos 1; percent = pos 80; time = pos 1_000_000; time_millis = pos 1 };
  signals = 1;
  version = pos 1;
}

abbrev idle_stream : DoubleBuffer
idle_stream = new_double_buffer 2 condition (pos 0)

abbrev choices : Choices
choices = record { now = pos 3; object = 0; done = false; select_case = told_case }

-- A read of the new stream finds nothing.
first_misses : advance choices entered idle_stream ≡ some (missed, idle_stream)
unfolding advance after_first try_read pick_buffer_from_heap new_double_buffer H.pick
first_misses = refl

idle-IsValid : IsValid idle_stream
idle-IsValid = reachable-IsValid 2 condition (pos 0) idle_stream Reachable.start

-- One reader is registered, and a buffer with one item was filed.
abbrev waiting_stream : DoubleBuffer
waiting_stream = record idle_stream { wm = (register 0 new_waiter_manager).1; told = pos 1 ∷ [] }

waiting-IsValid : IsValid waiting_stream
waiting-IsValid =
    IsValid-new_waiters idle_stream (register 0 new_waiter_manager).1 (pos 1 ∷ []) idle-IsValid

abbrev as_listed : Order
as_listed r ws = ws

as_listed-Walks : Walks as_listed
as_listed-Walks r ws = Perm.rfl

abbrev reader : Waiter
reader = (1, 0)

one_registered : waiting_stream.wm.ws ≡ reader ∷ []
unfolding register new_waiter_manager take_at delete
one_registered = refl

registered-IsValid : W.IsValid waiting_stream.wm
unfolding new_waiter_manager
registered-IsValid = (W.register-Registered 0 new_waiter_manager W.new-IsValid (omega arith)).valid

tell_wakes_example : Woken reader waiting_stream (tell as_listed 0 waiting_stream)
unfolding register new_waiter_manager take_at delete new_double_buffer
tell_wakes_example =
    tell_wakes as_listed 0 1 [] reader waiting_stream as_listed-Walks waiting-IsValid
      registered-IsValid refl refl mem-cons_self (omega arith)

close_wakes_example : Stopped reader waiting_stream (close waiting_stream)
unfolding new_double_buffer
close_wakes_example = close_wakes reader waiting_stream refl waiting-IsValid registered-IsValid

-- A buffer is due in the pending heap, and its notification is next.
abbrev filed_stream : DoubleBuffer
filed_stream = record idle_stream {
  pending_heap = record { sequence = pos 1; buf = 1; index = pos 0 } ∷ [];
  told = pos 1 ∷ [];
}

one_due : due_items filed_stream ≡ 1
unfolding new_double_buffer due_items number_of
one_due = refl

tell-Unheard_example : Unheard 0 filed_stream (tell as_listed 0 filed_stream)
unfolding new_double_buffer new_waiter_manager
tell-Unheard_example = tell-Unheard as_listed 0 0 (pos 1) [] filed_stream W.new-IsValid refl refl
