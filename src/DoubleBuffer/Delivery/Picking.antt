-- ===== src/DoubleBuffer/Delivery/Picking.antt =====
-- How a reader of an ordered stream without a buffer comes to its next one.
use mathlib.Core.List.{
  Mem, Perm, append_assoc, mem-cons, mem-append_right, mem-cons_self, perm_middle, not-mem-nil,
}
use mathlib.Core.List.Perm
use mathlib.Core.Logic.Or
use native.Mathlib.Bridge.{le_prop}
use native.Mathlib.Nat.{ℕ_set}
use chanjet.Common.{
  suc, ◌≡◌, sym, ap, subst, ◌∙◌, true, false, List, [], ◌∷◌, ◌++◌, length, arith, ◌==◌,
}
use chanjet.Common.Count.{number_of}
use chanjet.Common.Int.{ℤ, pos, pos_part, neg_part, ◌+ℤ◌, ◌≤ℤ◌, wrap64, int_laws}
use chanjet.Consts.{writing_state}
use chanjet.Buffer.{Ptr, nil, BufferItem}
use chanjet.Buffer.Fifo.Effect.{items}
use chanjet.MinHeap.{MinHeap}
use chanjet.MinHeap.Swap.{Entry, entries}
use chanjet.DoubleBuffer.{DoubleBuffer}
use chanjet.DoubleBuffer.Ownership.{times}
use chanjet.DoubleBuffer.Numbering.{next_number}
use chanjet.DoubleBuffer.Valid.{IsValid}
use chanjet.DoubleBuffer.Delivery.{gather, number_from, unread, IsOrdered}
use chanjet.DoubleBuffer.Delivery.Places.{place_real}

-- Each number of a run is at least the first one.
low_bound : (n m : ℤ) (b : Ptr) (queue : List Ptr) → Mem (m, b) (number_from n queue) → n ≤ℤ m
low_bound n m b [] h = absurd (not-mem-nil h)
low_bound n m b (c ∷ queue) h =
    Or.elim le_prop (mem-cons.0 h)
      (λ e.
        let number : m ≡ n = ap (λ (x : Entry). x.0) e in
        omega (arith, ap pos_part number, ap neg_part number))
      (λ t. omega (int_laws, low_bound (n +ℤ pos 1) m b queue t))

head_due : (n : ℤ) (b c : Ptr) (queue : List Ptr) → Mem (n, b) (number_from n (c ∷ queue)) → c ≡ b
head_due n b c queue h =
    Or.elim (ℕ_set c b) (mem-cons.0 h) (λ e. ap (λ (x : Entry). x.1) (sym e))
      (λ t. absurd (omega (int_laws, low_bound (n +ℤ pos 1) n b queue t)))

-- The buffer that bears the first number of a run is the first one.
first_due :
    (n : ℤ) (b : Ptr) (queue : List Ptr)
    → Mem (n, b) (number_from n queue)
    → (rest : List Ptr) × (queue ≡ b ∷ rest)
first_due n b [] h = absurd (not-mem-nil h)
first_due n b (c ∷ queue) h = (queue, ap (λ x. x ∷ queue) (head_due n b c queue h))

due_queue :
    {ins outs : List BufferItem} {d : DoubleBuffer} (o : IsOrdered ins outs d) (buf : Ptr)
    (heap : MinHeap)
    → Perm ((d.current_sequence, buf) ∷ entries heap) (entries d.pending_heap)
    → (rest : List Ptr) × (o.queue ≡ buf ∷ rest)
due_queue {d = d} o buf heap same =
    first_due d.current_sequence buf o.queue (
      (Perm.mem_iff o.numbers).1
        (mem-append_right d.numbered ((Perm.mem_iff same).0 mem-cons_self)))

due_numbers :
    {ins outs : List BufferItem} {d : DoubleBuffer} (o : IsOrdered ins outs d) (buf : Ptr)
    (heap : MinHeap) (rest : List Ptr)
    → Perm ((d.current_sequence, buf) ∷ entries heap) (entries d.pending_heap)
    → o.queue ≡ buf ∷ rest
    → Perm (number_from (d.current_sequence +ℤ pos 1) rest) (d.numbered ++ entries heap)
due_numbers {d = d} o buf heap rest same e =
    let whole =
      Perm.trans (Perm.symm (perm_middle {a = (d.current_sequence, buf)} d.numbered (entries heap)))
        (Perm.append_left d.numbered same) in
    Perm.cons_inv {a = (d.current_sequence, buf)} (
      Perm.trans
        (subst (λ q. Perm (number_from d.current_sequence q) (d.numbered ++ entries d.pending_heap))
          e o.numbers)
        (Perm.symm whole))

current_number :
    (d : DoubleBuffer)
    → IsValid d
    → d.state ≡ writing_state
    → d.current_sequence ≤ℤ d.sequence
    → wrap64 (d.current_sequence +ℤ pos 1) ≡ d.current_sequence +ℤ pos 1
current_number d v live due =
    let n = v.numbered (ground (arith, live)) in
    next_number d.current_sequence (omega (arith, n.started)) (omega (arith, n.bounded, due))

-- A reader without a current buffer takes the first one of the queue.
pub found-IsOrdered :
    {ins outs : List BufferItem} (d : DoubleBuffer) (buf : Ptr) (heap : MinHeap)
    → Perm ((d.current_sequence, buf) ∷ entries heap) (entries d.pending_heap)
    → d.current_buffer ≡ nil
    → let d' = record d {
      pending_heap = heap;
      current_buffer = buf;
      current_sequence = wrap64 (d.current_sequence +ℤ pos 1);
    } in
      IsValid d' → IsOrdered ins outs d → ((buf == nil) ≡ false) × IsOrdered ins outs d'
unfolding unread number_of
found-IsOrdered {ins} {outs} d buf heap same idle v o =
    let (rest, e) = due_queue o buf heap same in
    let real : (buf == nil) ≡ false = ground (arith, place_real o, ap (times nil) e) in
    let long : length o.queue ≡ suc (length rest) = ap length e in
    let nobody : (d.current_buffer == nil) ≡ true = ground (arith, idle) in
    let next : d.sequence +ℤ pos 1 ≡ d.current_sequence +ℤ pos (suc (length rest)) =
      o.next ∙ ap (λ n. d.current_sequence +ℤ pos n) long in
    let number : wrap64 (d.current_sequence +ℤ pos 1) ≡ d.current_sequence +ℤ pos 1 =
      current_number d o.valid o.live (omega (int_laws, ap pos_part next, ap neg_part next)) in
    let shift : d.current_sequence +ℤ pos (suc (length rest))
        ≡ d.current_sequence +ℤ pos 1 +ℤ pos (length rest) =
      omega int_laws in
    (
      real,
      record {
        valid = v;
        live = o.live;
        small = o.small;
        rings = λ a h.
            let r = o.rings a h in
            record {
              reads = r.reads;
              held = r.held;
              ring = r.ring;
              within = r.within;
              first = λ _. r.first (ground arith);
            };
        cleared = o.cleared;
        queue = rest;
        numbers = rw number (due_numbers o buf heap rest same e);
        next = rw number (next ∙ shift);
        full = o.full;
        order =
            o.order
            ∙ ap (λ xs. outs ++ xs)
                (rw (nobody, real, e, gather)
                  (append_assoc (items (d.store buf)) (gather d.store rest)
                    (gather d.store d.spawned ++ items (d.store d.active))));
      },
    )
