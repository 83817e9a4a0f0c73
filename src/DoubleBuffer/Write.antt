-- ===== src/DoubleBuffer/Write.antt =====
-- core/double_buffer.go: `Write`, with `p` as an address and a length.
use chanjet.Common.{ℕ, ◌==◌, if◌then◌else◌}
use chanjet.Common.Int.{ℤ, pos, ◌+ℤ◌, ltb_ℤ, leb_ℤ, wrap32}
use chanjet.Common.Run.{Run, ok, err, panic, buffer_close}
use chanjet.Consts.{writing_state, closed_state, read_only}
use chanjet.Buffer.{Ptr, BufferItem, SmartBuffer}
use chanjet.Buffer as B
use chanjet.Pools.{put_big, put_medium}
use chanjet.DoubleBuffer.{
  DoubleBuffer, put_buffer, switch_channel, small_data_threshold, large_data_threshold,
}

-- The header that is stored, and the pools: small data is copied to `copy`, an address that
-- `SmallPool` or `make` gives, and `&buf[0]` panics on an empty slice.
unfoldable pub admit : Ptr → ℤ → BufferItem → DoubleBuffer → DoubleBuffer × Run BufferItem
unfolding put_big put_medium
admit copy now item d =
    if ltb_ℤ item.size small_data_threshold
    then if leb_ℤ item.size (pos 0) then (d, panic) else (d, ok (record item { ptr = copy }))
    else if ltb_ℤ large_data_threshold item.size
    then (record d { pm = record d.pm { big = put_big item.ptr item.size d.pm.big } }, ok item)
    else (record d { pm = record d.pm { medium = put_medium item.ptr now d.pm.medium } }, ok item)

-- `d.active.Write`, and the count of what is written.
unfoldable pub counted : DoubleBuffer → Run (Unit {0}) → DoubleBuffer
counted d (ok _) = record d { count = wrap32 (d.count +ℤ pos 1) }
counted d (err _) = d
counted d panic = d

unfoldable pub write_active : BufferItem → DoubleBuffer → DoubleBuffer × Run (Unit {0})
unfolding counted
write_active item d =
    let (s, r) = B.write item (d.store d.active) in
    (counted (record d { store = put_buffer d.store d.active s }) r, r)

-- The path under the lock. A buffer that is neither read-only nor switching is written at once.
unfoldable pub write_slow : ℕ → ℤ → BufferItem → DoubleBuffer → DoubleBuffer × Run (Unit {0})
unfolding write_active
write_slow choice now item d =
    let switched = switch_channel choice now d in
    write_active item (if (d.store d.active).state == read_only then switched else d)

unfoldable pub after_fast :
    (DoubleBuffer → DoubleBuffer × Run (Unit {0}))
    → DoubleBuffer × Run (Unit {0})
    → DoubleBuffer × Run (Unit {0})
after_fast slow (d, ok u) = (d, ok u)
after_fast slow (d, err _) = slow d
after_fast slow (d, panic) = (d, panic)

-- The path without the lock.
unfoldable pub write_item : ℕ → ℤ → BufferItem → DoubleBuffer → DoubleBuffer × Run (Unit {0})
unfolding after_fast write_active write_slow
write_item choice now item d =
    let fast = after_fast (write_slow choice now item) (write_active item d) in
    let slow = write_slow choice now item d in if d.state == writing_state then fast else slow

unfoldable pub write_admitted :
    ℕ → ℤ → DoubleBuffer × Run BufferItem → DoubleBuffer × Run (Unit {0})
unfolding write_item
write_admitted choice now (d, ok item) = write_item choice now item d
write_admitted choice now (d, err e) = (d, err e)
write_admitted choice now (d, panic) = (d, panic)

unfoldable pub write : Ptr → ℕ → ℤ → BufferItem → DoubleBuffer → DoubleBuffer × Run (Unit {0})
unfolding admit write_admitted
write copy choice now item d =
    let written = write_admitted choice now (admit copy now item d) in
    if d.state == closed_state then (d, err buffer_close) else written
