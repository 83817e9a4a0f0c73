-- ===== src/DoubleBuffer/Delivery/Giving.antt =====
-- `Write` on an ordered stream: what it accepts goes behind all that is unread.
use mathlib.Core.List.{append-nil}
use chanjet.Common.{
  ℕ, suc, ◌≡◌, refl, sym, ap, ◌∙◌, true, false, List, [], ◌∷◌, ◌++◌, arith, ◌==◌, if◌then◌else◌,
  inl, inr, Bool-cases,
}
use chanjet.Common.Int.{ℤ, pos, ◌+ℤ◌, wrap32, ltb_ℤ, leb_ℤ}
use chanjet.Common.Run.{Run, ok, err, panic}
use chanjet.Consts.{closed_state, writing_state, read_only}
use chanjet.Buffer.{Ptr, nil, BufferItem, SmartBuffer}
use chanjet.Buffer as B
use chanjet.Buffer.Fifo.Effect.{items, write-effect}
use chanjet.DoubleBuffer.{
  DoubleBuffer, put_buffer, switch_channel, small_data_threshold, large_data_threshold,
}
use chanjet.DoubleBuffer.Write.{
  admit, counted, write_active, write_slow, after_fast, write_item, write_admitted, write,
}
use chanjet.DoubleBuffer.Valid.{both, IsValid-new_parts}
use chanjet.DoubleBuffer.Writing.{Writing, write_active-IsValid, switch-IsValid, admit_lem}
use chanjet.DoubleBuffer.Delivery.{accepted, header, IsFull, IsOrdered}
use chanjet.DoubleBuffer.Delivery.Filing.{HasRing-of, IsRing-state, IsOrdered-rest}
use chanjet.DoubleBuffer.Delivery.Switching.{switch-IsOrdered, items-state}
use chanjet.DoubleBuffer.Delivery.Storing.{active_real, active_unread, stored-IsOrdered}

-- What a write that ended so put in.
abbrev put_in : BufferItem → Run (Unit {0}) → List BufferItem
put_in y (ok _) = y ∷ []
put_in y (err _) = []
put_in y panic = []

module _ (ins outs : List BufferItem) (y : BufferItem) (full : IsFull y) where
  abbrev Given : Writing → Type 0
  Given p = IsOrdered (ins ++ put_in y p.1) outs p.0

  write_active-Given : (d : DoubleBuffer) → IsOrdered ins outs d → Given (write_active y d)
  unfolding write_active counted
  write_active-Given d o =
      let r = o.rings d.active (active_real o) in
      let v = write_active-IsValid y d o.valid in
      let none_read : r.reads ≡ 0 = r.first (active_unread o) in
      let here : (d.active == d.active) ≡ true = ground arith in
      elim (write-effect y r.ring (omega (arith, r.within, r.ring.small))) [
        | inl w ↦
            let s : SmartBuffer = (B.write y (d.store d.active)).0 in
            rw w.wrote (
              stored-IsOrdered o s (y ∷ []) w.more (wrap32 (d.count +ℤ pos 1)) (rw w.wrote at v)
                (HasRing-of (record d { store = put_buffer d.store d.active s }) d.active s r.reads
                  (suc r.held) (rw here) w.ring (omega (arith, none_read, w.room, w.kept)) r.first)
                (full, tt))
        | inr f ↦
            let s : SmartBuffer = record (d.store d.active) { state = f.state } in
            rw f.ended (
              stored-IsOrdered o s []
                (items-state f.state (d.store d.active)
                  ∙ sym (append-nil (items (d.store d.active))))
                d.count (rw f.ended at v)
                (HasRing-of (record d { store = put_buffer d.store d.active s }) d.active s r.reads
                  r.held (rw here) (IsRing-state f.state r.ring) r.within r.first)
                tt)
      ]

  Given-none : (d : DoubleBuffer) → IsOrdered ins outs d → IsOrdered (ins ++ []) outs d
  Given-none d o = rw append-nil o

  write_slow-Given :
      (choice : ℕ) (now : ℤ) (d : DoubleBuffer)
      → IsOrdered ins outs d
      → Given (write_slow choice now y d)
  unfolding write_slow
  write_slow-Given choice now d o =
      write_active-Given
        (if (d.store d.active).state == read_only then switch_channel choice now d else d)
        (both (IsOrdered ins outs) ((d.store d.active).state == read_only)
          (switch-IsOrdered choice now d (switch-IsValid choice now d o.valid) o) o)

  after_fast-Given :
      (slow : DoubleBuffer → Writing) (p : Writing)
      → ((d : DoubleBuffer) → IsOrdered ins outs d → Given (slow d))
      → Given p
      → Given (after_fast slow p)
  unfolding after_fast
  after_fast-Given slow (d, ok u) h g = g
  after_fast-Given slow (d, err e) h g = h d (rw append-nil at g)
  after_fast-Given slow (d, panic) h g = g

  write_item-Given :
      (choice : ℕ) (now : ℤ) (d : DoubleBuffer)
      → IsOrdered ins outs d
      → Given (write_item choice now y d)
  unfolding write_item
  write_item-Given choice now d o =
      both Given (d.state == writing_state)
        (after_fast-Given (write_slow choice now y) (write_active y d) (write_slow-Given choice now)
          (write_active-Given d o))
        (write_slow-Given choice now d o)

-- What `admit` makes of an item: the header that is stored, of data that are there.
Admitted : Ptr → BufferItem → Run BufferItem → Type 0
Admitted copy item (ok y) = (y ≡ header copy item) × IsFull y
Admitted copy item (err e) = Unit
Admitted copy item panic = Unit

admit-Admitted :
    (copy : Ptr) (now : ℤ) (item : BufferItem) (d : DoubleBuffer)
    → (copy == nil) ≡ false
    → (item.ptr == nil) ≡ false
    → Admitted copy item (admit copy now item d).1
unfolding admit Admitted
admit-Admitted copy now item d c p = elim (Bool-cases (ltb_ℤ item.size small_data_threshold)) [
  | inl small ↦ elim (Bool-cases (leb_ℤ item.size (pos 0))) [
    | inl empty ↦ rw (small, empty) tt
    | inr some_bytes ↦
        rw (small, some_bytes) (rw small refl, record { some_bytes = some_bytes; there = c })
  ]
  | inr large ↦
      let y : IsFull item = record { some_bytes = ground (arith, large); there = p } in
      rw large (
        both (λ (r : DoubleBuffer × Run BufferItem). Admitted copy item r.1)
          (ltb_ℤ large_data_threshold item.size) (rw large refl, y) (rw large refl, y))
]

accepted-put_in :
    (copy : Ptr) (item y : BufferItem) (r : Run (Unit {0}))
    → y ≡ header copy item
    → put_in y r ≡ accepted copy item r
accepted-put_in copy item y (ok u) e = ap (λ x. x ∷ []) e
accepted-put_in copy item y (err _) e = refl
accepted-put_in copy item y panic e = refl

module _ (ins outs : List BufferItem) (copy : Ptr) (item : BufferItem) where
  Accepted : Writing → Type 0
  Accepted p = IsOrdered (ins ++ accepted copy item p.1) outs p.0

  write_admitted-Accepted :
      (choice : ℕ) (now : ℤ) (d : DoubleBuffer) (r : Run BufferItem)
      → Admitted copy item r
      → IsOrdered ins outs d
      → Accepted (write_admitted choice now (d, r))
  unfolding write_admitted Admitted Accepted
  write_admitted-Accepted choice now d (ok y) (e, full) o =
      rw (← accepted-put_in copy item y (write_item choice now y d).1 e)
        (write_item-Given ins outs y full choice now d o)
  write_admitted-Accepted choice now d (err e) a o = rw append-nil o
  write_admitted-Accepted choice now d panic a o = rw append-nil o

pub write-IsOrdered :
    {ins outs : List BufferItem} (copy : Ptr) (choice : ℕ) (now : ℤ) (item : BufferItem)
    (d : DoubleBuffer)
    → (copy == nil) ≡ false
    → (item.ptr == nil) ≡ false
    → IsOrdered ins outs d
    → IsOrdered
        (ins ++ accepted copy item (write copy choice now item d).1)
        outs
        (write copy choice now item d).0
unfolding write Accepted
write-IsOrdered {ins} {outs} copy choice now item d c p o =
    let (pm, e) = admit_lem copy now item d in
    let v = IsValid-new_parts d d.store pm d.count o.valid in
    let a : IsOrdered ins outs (admit copy now item d).0 =
      rw e (IsOrdered-rest d d.count d.sc d.scd d.read_mode d.wm pm d.told v o) in
    both (Accepted ins outs copy item) (d.state == closed_state) (rw append-nil o) (
      write_admitted-Accepted ins outs copy item choice now (admit copy now item d).0
        (admit copy now item d).1 (admit-Admitted copy now item d c p) a)
