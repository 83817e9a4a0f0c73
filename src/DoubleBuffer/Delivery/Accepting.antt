-- ===== src/DoubleBuffer/Delivery/Accepting.antt =====
-- An open stream refuses no write of data: there is always a buffer that takes it.
use chanjet.Common.{ℕ, ◌<◌, ◌≡◌, false, List, arith, ◌==◌}
use chanjet.Common.Int.{ℤ}
use chanjet.Common.Run.{Run}
use chanjet.Buffer as B
use chanjet.Buffer.{nil, BufferItem, SmartBuffer, reset, pop, len}
use chanjet.DoubleBuffer.{DoubleBuffer, put_buffer}
use chanjet.DoubleBuffer.Writing.{Writing}
use chanjet.DoubleBuffer.Delivery.{IsOrdered}
use chanjet.DoubleBuffer.Delivery.Places.{place_real, place_once}
use chanjet.DoubleBuffer.Delivery.Ready.{Ready}

module _ {ins outs : List BufferItem} (d : DoubleBuffer) (o : IsOrdered ins outs d) (g : Ready d)
    (more : 0 < d.size) (choice : ℕ) (now : ℤ) (y : BufferItem) where
  abbrev with_active : SmartBuffer → DoubleBuffer
  with_active s = record d { store = put_buffer d.store d.active s }

  real : (d.passive == nil) ≡ false
  real = ground (arith, place_real o)

  unread_passive : (d.passive == d.current_buffer) ≡ false
  unread_passive = ground (arith, place_once o d.passive, real)
