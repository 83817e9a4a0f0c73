-- ===== src/DoubleBuffer/Due.antt =====
-- Which buffer `pickBufferFromHeap` hands to the reader.
use mathlib.Core.List.{Perm}
use chanjet.Common.{
  ℕ, suc, ◌<◌, ◌≡◌, subst, Bool, true, false, [], ◌∷◌, Option, arith, length, All, ◌==◌, ◌⊎◌, inl,
  inr, Bool-cases,
}
use chanjet.Common.Count.{number_of, number_of-perm}
use chanjet.Common.Int.{ℤ, ◌≤ℤ◌, eqb_ℤ}
use chanjet.Consts.{closed_state}
use chanjet.Buffer.{nil}
use chanjet.MinHeap.{MinHeap}
use chanjet.MinHeap.Swap.{Entry, entries}
use chanjet.WrapHeap.{pick}
use chanjet.WrapHeap.Order as Heap
use chanjet.WrapHeap.Pick.{Picked, pick_least}
use chanjet.DoubleBuffer.{DoubleBuffer}
use chanjet.DoubleBuffer.Read.{pick_rounds, pick_buffer_from_heap, max_retires}
use chanjet.DoubleBuffer.Numbering.{bears, waiting, IsNumbered}
use chanjet.DoubleBuffer.Outcome.{Found, Missed, Outcome, pick_rounds_lem}
use chanjet.DoubleBuffer.Valid.{IsValid}

-- How many items of the pending heap bear the number that is due.
unfoldable pub due_items : DoubleBuffer → ℕ
due_items d = number_of (bears d.current_sequence) (entries d.pending_heap)

least_bound :
    (k n : ℤ) (m : MinHeap)
    → All (λ x. k ≤ℤ x.sequence) m
    → 0 < number_of (bears n) (entries m)
    → k ≤ℤ n
unfolding number_of
least_bound k n [] h some_there = absurd (omega arith)
least_bound k n (x ∷ m) h some_there = elim (Bool-cases (eqb_ℤ x.sequence n)) [
  | inl same ↦ ground (arith, h.0)
  | inr other ↦ least_bound k n m h.1 (ground arith)
]

some_item : (p : Entry → Bool) (m : MinHeap) → 0 < number_of p (entries m) → 0 < length m
unfolding number_of
some_item p [] h = absurd (omega arith)
some_item p (x ∷ m) h = omega arith

first_is_due :
    (d : DoubleBuffer) (p : Picked d.pending_heap (pick d.pending_heap))
    → IsNumbered d
    → 0 < due_items d
    → p.item.sequence ≡ d.current_sequence
unfolding due_items waiting number_of
first_is_due d p n h =
    let low : p.item.sequence ≤ℤ d.current_sequence =
      least_bound p.item.sequence d.current_sequence d.pending_heap p.least h in
    let own = number_of-perm (bears p.item.sequence) p.same in
    let high : d.current_sequence ≤ℤ p.item.sequence =
      ground (arith, own, n.dense p.item.sequence) in
    ground (arith, low, high)

Found-first :
    (rounds : ℕ) (d : DoubleBuffer)
    → Heap.IsValid d.pending_heap
    → IsNumbered d
    → 0 < due_items d
    → Found d (pick_rounds (suc rounds) d)
unfolding pick_rounds due_items
Found-first rounds d v n h =
    let p = pick_least d.pending_heap v (some_item (bears d.current_sequence) d.pending_heap h) in
    let number = first_is_due d p n h in
    let due : eqb_ℤ p.item.sequence d.current_sequence ≡ true = ground (arith, number) in
    record {
      buf = p.item.buf;
      heap = p.rest;
      ended = rw (p.ended, due, pick_rounds);
      valid = p.valid;
      same =
          subst (λ n. Perm ((n, p.item.buf) ∷ entries p.rest) (entries d.pending_heap)) number
            p.same;
    }

not_found :
    (d : DoubleBuffer) (r : Option (Bool × DoubleBuffer))
    → due_items d ≡ 0
    → Outcome d r
    → Missed d r
unfolding due_items number_of
not_found d r h (inl f) = absurd (ground (arith, number_of-perm (bears d.current_sequence) f.same))
not_found d r h (inr f) = f

at_most_once : (d : DoubleBuffer) → IsNumbered d → 0 < due_items d → due_items d ≡ 1
unfolding due_items waiting
at_most_once d n h = ground (arith, n.dense d.current_sequence)

-- A reader of an open, valid stream without a current buffer gets the buffer with the number that is
-- due if it is in the pending heap; if not, it gets none, and the heap keeps its items.
pub pick_due :
    (d : DoubleBuffer)
    → IsValid d
    → (d.state == closed_state) ≡ false
    → d.current_buffer ≡ nil
    → ((due_items d ≡ 1) × Found d (pick_buffer_from_heap d))
      ⊎ ((due_items d ≡ 0) × Missed d (pick_buffer_from_heap d))
unfolding pick_buffer_from_heap
pick_due d v live e = elim (Bool-cases (due_items d == 0)) [
  | inl h ↦ inr (
    ground arith,
    not_found d (pick_buffer_from_heap d) (ground arith) (pick_rounds_lem max_retires d v.heap e),
  )
  | inr h ↦ inl (
    at_most_once d (v.numbered live) (ground arith),
    Found-first 2 d v.heap (v.numbered live) (ground arith),
  )
]
