-- ===== src/DoubleBuffer/Delivery/Whole.antt =====
-- An open stream as a queue.
use mathlib.Core.List.{Perm, mem-cons_self, not-mem-nil}
use mathlib.Core.List.Perm
use chanjet.Common.{
  ℕ, ◌^◌, ◌<◌, ◌≡◌, refl, sym, ap, ap₂, subst, true, false, ◌||◌, List, [], ◌∷◌, ◌++◌, arith, ◌==◌,
  inl, inr, Bool-cases,
}
use chanjet.Common.Int.{ℤ, pos, ◌+ℤ◌, eqb_ℤ}
use chanjet.Config.{SwitchCondition}
use chanjet.Buffer.{Ptr, nil, BufferItem, len}
use chanjet.MinHeap.Swap.{entries}
use chanjet.WrapHeap.{new_wrap_heap}
use chanjet.DoubleBuffer.{DoubleBuffer, new_double_buffer}
use chanjet.DoubleBuffer.Steps.{reachable-IsValid, Reachable}
use chanjet.DoubleBuffer.Delivery.{
  History, started, wrote, read, other, gather, number_from, current_items, unread, IsOrdered,
}
use chanjet.DoubleBuffer.Delivery.Places.{place_real}
use chanjet.DoubleBuffer.Delivery.Switching.{blank-IsRing, items-blank}
use chanjet.DoubleBuffer.Delivery.Giving.{write-IsOrdered}
use chanjet.DoubleBuffer.Delivery.Returning.{held_none}
use chanjet.DoubleBuffer.Delivery.Reader.{tried-IsOrdered}
use chanjet.DoubleBuffer.Delivery.Quiet.{quiet-IsOrdered}

new-IsOrdered :
    (size : ℕ) (sc : SwitchCondition) (at : ℤ)
    → size < 2 ^ 31
    → IsOrdered [] [] (new_double_buffer size sc at)
unfolding new_double_buffer new_wrap_heap unread ◌+ℤ◌
new-IsOrdered size sc at small = record {
  valid = reachable-IsValid size sc at (new_double_buffer size sc at) Reachable.start;
  live = refl;
  small = small;
  rings = λ a h. record {
    reads = 0;
    held = 0;
    ring = blank-IsRing size small;
    within = omega arith;
    first = λ _. refl;
  };
  cleared = λ a h. items-blank size;
  queue = [];
  numbers = Perm.rfl;
  next = refl;
  full = tt;
  order = sym (items-blank size);
}

pub History-IsOrdered :
    (size : ℕ) (sc : SwitchCondition) (at : ℤ) (d : DoubleBuffer) (ins outs : List BufferItem)
    → size < 2 ^ 31
    → History size sc at d ins outs
    → IsOrdered ins outs d
History-IsOrdered size sc at _ _ _ small started = new-IsOrdered size sc at small
History-IsOrdered size sc at _ _ _ small (wrote {d} {ins} {outs} copy choice now item h c p) =
    write-IsOrdered copy choice now item d c p (History-IsOrdered size sc at d ins outs small h)
History-IsOrdered size sc at _ _ _ small (read {d} {d'} {ins} {outs} {r} now h e) =
    tried-IsOrdered now d d' r e (History-IsOrdered size sc at d ins outs small h)
History-IsOrdered size sc at _ _ _ small (other {d} {d'} {ins} {outs} s h q) =
    quiet-IsOrdered s q (History-IsOrdered size sc at d ins outs small h)

-- Nothing is on its way: no goroutine of a switch is left, the pending heap is empty, and so are the
-- active buffer and the current one.
pub record IsIdle (d : DoubleBuffer) : Type 0 where
  pub none_spawned : d.spawned ≡ []
  pub none_numbered : d.numbered ≡ []
  pub none_pending : d.pending_heap ≡ []
  pub none_active : eqb_ℤ (len (d.store d.active)) (pos 0) ≡ true
  pub none_current :
      (d.current_buffer == nil || eqb_ℤ (len (d.store d.current_buffer)) (pos 0)) ≡ true

no_queue : (n : ℤ) (queue : List Ptr) → Perm (number_from n queue) [] → queue ≡ []
no_queue n [] p = refl
no_queue n (b ∷ queue) p = absurd (not-mem-nil ((Perm.mem_iff p).0 mem-cons_self))

idle_current :
    {ins outs : List BufferItem} (d : DoubleBuffer)
    → IsOrdered ins outs d
    → IsIdle d
    → current_items d ≡ []
unfolding current_items
idle_current d o i = elim (Bool-cases (d.current_buffer == nil)) [
  | inl nobody ↦ rw nobody
  | inr here ↦ rw here (
      held_none d d.current_buffer (o.rings d.current_buffer here)
        (ground (arith, here, i.none_current)))
]

idle_unread :
    {ins outs : List BufferItem} (d : DoubleBuffer) (o : IsOrdered ins outs d)
    → IsIdle d
    → unread o.queue d ≡ []
unfolding unread
idle_unread d o i =
    let queue : o.queue ≡ [] = no_queue d.current_sequence o.queue (
      subst (λ es. Perm (number_from d.current_sequence o.queue) es)
        (ap₂ ◌++◌ i.none_numbered (ap entries i.none_pending)) o.numbers) in
    let real : (d.active == nil) ≡ false = ground (arith, place_real o) in
    ap₂ ◌++◌ (idle_current d o i) (
      ap₂ ◌++◌ (ap (gather d.store) queue) (
        ap₂ ◌++◌ (ap (gather d.store) i.none_spawned)
          (held_none d d.active (o.rings d.active real) i.none_active)))

-- What an open stream, with buffers of fewer than 2^31 slots, delivered is, in the same order,
-- the first part of what it accepted, with nothing lost, doubled or made up in between; once
-- nothing is on its way it is all of it. The goroutines of the switches draw their numbers in
-- the order in which they were started, and no data is at address nil.
pub delivered_in_order :
    (size : ℕ) (sc : SwitchCondition) (at : ℤ) (d : DoubleBuffer) (ins outs : List BufferItem)
    → size < 2 ^ 31
    → History size sc at d ins outs
    → (rest : List BufferItem) × (ins ≡ outs ++ rest) × (IsIdle d → rest ≡ [])
delivered_in_order size sc at d ins outs small h =
    let o = History-IsOrdered size sc at d ins outs small h in
    (unread o.queue d, o.order, idle_unread d o)
