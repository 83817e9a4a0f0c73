-- ===== src/DoubleBuffer/Writing.antt =====
-- What `Write` and a switch do to a valid stream.
use chanjet.Common.{ℕ, refl, sym, subst, ◌==◌, if◌then◌else◌, inl, inr, Bool-cases}
use chanjet.Common.Int.{ℤ, pos, ◌+ℤ◌, ltb_ℤ, leb_ℤ, wrap32}
use chanjet.Common.Run.{Run, ok, err, panic}
use chanjet.Consts.{writing_state, closed_state, read_only}
use chanjet.Buffer.{Ptr, BufferItem, SmartBuffer}
use chanjet.Buffer as B
use chanjet.DoubleBuffer.{
  DoubleBuffer, put_buffer, switch_channel, small_data_threshold, large_data_threshold,
}
use chanjet.DoubleBuffer.Write.{
  admit, counted, write_active, write_slow, after_fast, write_item, write_admitted, write,
}
use chanjet.DoubleBuffer.Ownership.{IsOwned}
use chanjet.DoubleBuffer.Switch.{switch_lem, switch-IsOwned}
use chanjet.DoubleBuffer.Numbering.{waiting}
use chanjet.DoubleBuffer.Valid.{IsValid, both, PoolsOnly, IsValid-new_parts}

abbrev pub Writing : Type 0
Writing = DoubleBuffer × Run (Unit {0})

pub switch-IsValid :
    (choice : ℕ) (now : ℤ) (d : DoubleBuffer) → IsValid d → IsValid (switch_channel choice now d)
unfolding switch_channel waiting
switch-IsValid choice now d v = elim (Bool-cases (d.state == writing_state)) [
  | inl w ↦
      let s = switch_lem choice now d w in
      let o = subst IsOwned s.ended (switch-IsOwned choice now d v.owned) in
      subst IsValid (sym s.ended) (record {
        owned = o;
        heap = v.heap;
        numbered = λ o. record {
          dense = (v.numbered o).dense;
          started = (v.numbered o).started;
          ahead = (v.numbered o).ahead;
          bounded = (v.numbered o).bounded;
        };
      })
  | inr w ↦ rw (w, switch_channel) v
]

counted-IsValid : (d : DoubleBuffer) (r : Run (Unit {0})) → IsValid d → IsValid (counted d r)
unfolding counted
counted-IsValid d (ok _) v = IsValid-new_parts d d.store d.pm (wrap32 (d.count +ℤ pos 1)) v
counted-IsValid d (err _) v = v
counted-IsValid d panic v = v

pub write_active-IsValid :
    (item : BufferItem) (d : DoubleBuffer) → IsValid d → IsValid (write_active item d).0
unfolding write_active
write_active-IsValid item d v =
    let (s, r) = B.write item (d.store d.active) in
    counted-IsValid (record d { store = put_buffer d.store d.active s }) r
      (IsValid-new_parts d (put_buffer d.store d.active s) d.pm d.count v)

write_slow-IsValid :
    (choice : ℕ) (now : ℤ) (item : BufferItem) (d : DoubleBuffer)
    → IsValid d
    → IsValid (write_slow choice now item d).0
unfolding write_slow
write_slow-IsValid choice now item d v =
    write_active-IsValid item
      (if (d.store d.active).state == read_only then switch_channel choice now d else d)
      (both IsValid ((d.store d.active).state == read_only) (switch-IsValid choice now d v) v)

after_fast-IsValid :
    (slow : DoubleBuffer → Writing) (r : Writing)
    → ((d : DoubleBuffer) → IsValid d → IsValid (slow d).0)
    → IsValid r.0
    → IsValid (after_fast slow r).0
unfolding after_fast
after_fast-IsValid slow (d, ok u) h v = v
after_fast-IsValid slow (d, err e) h v = h d v
after_fast-IsValid slow (d, panic) h v = v

write_item-IsValid :
    (choice : ℕ) (now : ℤ) (item : BufferItem) (d : DoubleBuffer)
    → IsValid d
    → IsValid (write_item choice now item d).0
unfolding write_item
write_item-IsValid choice now item d v =
    both (λ (r : Writing). IsValid r.0) (d.state == writing_state)
      (after_fast-IsValid (write_slow choice now item) (write_active item d)
        (write_slow-IsValid choice now item) (write_active-IsValid item d v))
      (write_slow-IsValid choice now item d v)

write_admitted-IsValid :
    (choice : ℕ) (now : ℤ) (d : DoubleBuffer) (r : Run BufferItem)
    → IsValid d
    → IsValid (write_admitted choice now (d, r)).0
unfolding write_admitted
write_admitted-IsValid choice now d (ok item) v = write_item-IsValid choice now item d v
write_admitted-IsValid choice now d (err e) v = v
write_admitted-IsValid choice now d panic v = v

pub admit_lem :
    (copy : Ptr) (now : ℤ) (item : BufferItem) (d : DoubleBuffer)
    → PoolsOnly d (admit copy now item d).0
unfolding admit
admit_lem copy now item d =
    both (λ (r : DoubleBuffer × Run BufferItem). PoolsOnly d r.0)
      (ltb_ℤ item.size small_data_threshold)
      (both (λ (r : DoubleBuffer × Run BufferItem). PoolsOnly d r.0) (leb_ℤ item.size (pos 0))
        (d.pm, refl) (d.pm, refl))
      (both (λ (r : DoubleBuffer × Run BufferItem). PoolsOnly d r.0)
        (ltb_ℤ large_data_threshold item.size) (_, refl) (_, refl))

pub write-IsValid :
    (copy : Ptr) (choice : ℕ) (now : ℤ) (item : BufferItem) (d : DoubleBuffer)
    → IsValid d
    → IsValid (write copy choice now item d).0
unfolding write
write-IsValid copy choice now item d v =
    let (pm, e) = admit_lem copy now item d in
    both (λ (r : Writing). IsValid r.0) (d.state == closed_state) v
      (write_admitted-IsValid choice now (admit copy now item d).0 (admit copy now item d).1
        (subst IsValid (sym e) (IsValid-new_parts d d.store pm d.count v)))
