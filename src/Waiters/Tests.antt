-- ===== src/Waiters/Tests.antt =====
-- Two waiters at a concrete manager, and the theorems applied to them.
use mathlib.Core.List.Perm
use chanjet.Common.{suc, ◌^◌, ◌<◌, ◌≡◌, refl, false, [], ◌∷◌, length, arith}
use chanjet.Common.Int.{pos}
use chanjet.Waiters.{
  take_at, delete, WaiterManager, Order, new_waiter_manager, register, unregister, notify,
}
use chanjet.Waiters.Invariant.{IsValid, new-IsValid, Registered, register-Registered}
use chanjet.Waiters.Leave.{Unregistered, unregister-Unregistered}
use chanjet.Waiters.Wake.{Walks, Notified, notify_wakes}

abbrev one_waiter : WaiterManager
one_waiter = (register 0 new_waiter_manager).1

abbrev two_waiters : WaiterManager
two_waiters = (register 0 one_waiter).1

abbrev as_listed : Order
as_listed r ws = ws

as_listed-Walks : Walks as_listed
as_listed-Walks r ws = Perm.rfl

room_for_one : suc one_waiter.current_id < 2 ^ 64
unfolding register new_waiter_manager take_at
room_for_one = omega arith

register-Registered_example : Registered one_waiter (register 0 one_waiter)
unfolding new_waiter_manager
register-Registered_example =
    register-Registered 0 one_waiter
      (register-Registered 0 new_waiter_manager new-IsValid (omega arith)).valid room_for_one

two_waiters-IsValid : IsValid two_waiters
two_waiters-IsValid = register-Registered_example.valid

listed : two_waiters.ws ≡ (2, 1) ∷ (1, 0) ∷ []
unfolding register new_waiter_manager take_at delete
listed = refl

open_ : two_waiters.closed ≡ false
unfolding register new_waiter_manager take_at
open_ = refl

waiting : 0 < length two_waiters.ws
unfolding register new_waiter_manager take_at
waiting = omega arith

notify_wakes_example :
    Notified as_listed two_waiters as_listed-Walks two_waiters-IsValid 1
      (notify as_listed (pos 1) two_waiters)
notify_wakes_example =
    notify_wakes as_listed two_waiters as_listed-Walks two_waiters-IsValid 1 open_ waiting
      (omega arith)

unregister-Unregistered_example : Unregistered 1 two_waiters (unregister 1 two_waiters)
unregister-Unregistered_example = unregister-Unregistered 1 two_waiters two_waiters-IsValid
