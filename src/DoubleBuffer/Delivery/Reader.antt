-- ===== src/DoubleBuffer/Delivery/Reader.antt =====
-- A whole `tryRead` on an ordered stream.
use mathlib.Core.List.Perm
use chanjet.Common.{
  ◌-◌, ◌≡◌, refl, sym, subst, Bool, true, false, ◌||◌, List, ◌++◌, Option, none, some, Option-cases,
  arith, ◌==◌, inl, inr, Bool-cases,
}
use chanjet.Common.Int.{ℤ, pos, eqb_ℤ}
use chanjet.Common.Run.{Run, err, panic, no_buffer}
use chanjet.Buffer.{nil, BufferItem, len}
use chanjet.DoubleBuffer.{DoubleBuffer}
use chanjet.DoubleBuffer.Read.{
  DataChunk, Reading, read_in, read_current, give_back, after_pick, max_retires, pick_rounds,
  pick_buffer_from_heap, try_read,
}
use chanjet.DoubleBuffer.Outcome.{Missed, Outcome, pick_rounds_lem}
use chanjet.DoubleBuffer.TryRead.{found-IsValid, missed-IsValid, give_back-empty}
use chanjet.DoubleBuffer.Reading.{give_back-IsValid}
use chanjet.DoubleBuffer.Delivery.{delivered, unread, IsOrdered}
use chanjet.DoubleBuffer.Delivery.Filing.{HasRing-kept}
use chanjet.DoubleBuffer.Delivery.Picking.{found-IsOrdered}
use chanjet.DoubleBuffer.Delivery.Returning.{give_back-IsOrdered}
use chanjet.DoubleBuffer.Delivery.Taking.{Took, Took-none, read_nothing, read_one}

read_current-Took :
    {ins outs : List BufferItem} (now : ℤ) (d : DoubleBuffer)
    → (d.current_buffer == nil) ≡ false
    → IsOrdered ins outs d
    → Took ins outs (read_current now d)
unfolding read_current read_in
read_current-Took {ins} {outs} now d here o = elim (Option-cases d.read_mode) [
  | inl e ↦ subst (λ m. Took ins outs (read_in m now d)) (sym e) (Took-none o panic refl)
  | inr (mode, e) ↦
      let r = o.rings d.current_buffer here in
      subst (λ m. Took ins outs (read_in m now d)) (sym e)
        (elim (Bool-cases (r.held == 0)) [
          | inl empty ↦ read_nothing o here now mode r (ground arith)
          | inr some_held ↦ read_one o here now mode r (r.held - 1) (ground arith)
        ])
]

Missed-IsOrdered :
    {ins outs : List BufferItem} (d : DoubleBuffer) (r : Option (Bool × DoubleBuffer))
    (f : Missed d r)
    → IsOrdered ins outs d
    → IsOrdered ins outs (record d { pending_heap = f.heap })
unfolding unread
Missed-IsOrdered d r f o = record {
  valid = missed-IsValid d r f o.valid;
  live = o.live;
  small = o.small;
  rings = λ a h. HasRing-kept d _ a refl refl (o.rings a h);
  cleared = o.cleared;
  queue = o.queue;
  numbers = Perm.trans o.numbers (Perm.append_left d.numbered (Perm.symm f.same));
  next = o.next;
  full = o.full;
  order = o.order;
}

-- What a read that ended so leaves, whatever it ended with.
abbrev LeavesOrder : List BufferItem → List BufferItem → Option Reading → Type 0
LeavesOrder ins outs none = Unit
LeavesOrder ins outs (some p) = Took ins outs p

after_pick-LeavesOrder :
    {ins outs : List BufferItem} (now : ℤ) (d : DoubleBuffer) (r : Option (Bool × DoubleBuffer))
    → d.current_buffer ≡ nil
    → IsOrdered ins outs d
    → Outcome d r
    → LeavesOrder ins outs (after_pick now r)
unfolding after_pick
after_pick-LeavesOrder now d r idle o (inl f) =
    let (real, o') =
      found-IsOrdered d f.buf f.heap f.same idle (found-IsValid d r f idle o.valid) o in
    rw (f.ended, real, after_pick) (read_current-Took now _ real o')
after_pick-LeavesOrder now d r idle o (inr f) =
    let nobody : (d.current_buffer == nil) ≡ true = ground (arith, idle) in
    rw (f.ended, nobody, after_pick) (Took-none (Missed-IsOrdered d r f o) (err no_buffer) refl)

try_read-LeavesOrder :
    {ins outs : List BufferItem} (now : ℤ) (d : DoubleBuffer)
    → IsOrdered ins outs d
    → LeavesOrder ins outs (try_read now d)
unfolding try_read pick_buffer_from_heap
try_read-LeavesOrder {ins} {outs} now d o =
    elim (Bool-cases (d.current_buffer == nil || eqb_ℤ (len (d.store d.current_buffer)) (pos 0))) [
      | inl done ↦
          let v = give_back-IsValid d o.valid in
          let empty = give_back-empty d in
          rw done (
            after_pick-LeavesOrder now (give_back d) (pick_rounds max_retires (give_back d)) empty
              (give_back-IsOrdered d v (λ h. ground (arith, done, h)) o)
              (pick_rounds_lem max_retires (give_back d) v.heap empty))
      | inr more ↦ rw more (read_current-Took now d (ground (arith, more)) o)
    ]

pub tried-IsOrdered :
    {ins outs : List BufferItem} (now : ℤ) (d d' : DoubleBuffer) (r : Run DataChunk)
    → try_read now d ≡ some (d', r)
    → IsOrdered ins outs d
    → IsOrdered ins (outs ++ delivered r) d'
tried-IsOrdered {ins} {outs} now d d' r e o =
    subst (LeavesOrder ins outs) e (try_read-LeavesOrder now d o)
