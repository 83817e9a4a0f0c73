-- ===== src/DoubleBuffer/Outcome.antt =====
-- How `pickBufferFromHeap` ends on a valid heap.
use mathlib.Core.List.{Perm}
use mathlib.Core.List.Perm
use chanjet.Common.{
  ℕ, zero, suc, ◌≡◌, refl, subst, Bool, true, not, [], ◌∷◌, Option, some, none, arith, length, ◌==◌,
  ◌⊎◌, inl, inr, Bool-cases,
}
use chanjet.Common.Int.{pos, ◌+ℤ◌, eqb_ℤ, wrap64}
use chanjet.Buffer.{Ptr, nil}
use chanjet.MinHeap.{MinHeap}
use chanjet.MinHeap.Swap.{entries}
use chanjet.WrapHeap.{pick}
use chanjet.WrapHeap.Order.{IsValid, push_correct}
use chanjet.WrapHeap.Pick.{pick_least}
use chanjet.DoubleBuffer.{DoubleBuffer}
use chanjet.DoubleBuffer.Read.{pick_rounds}

-- The buffer that is due is taken from the heap.
pub record Found (d : DoubleBuffer) (r : Option (Bool × DoubleBuffer)) : Type 0 where
  pub buf : Ptr
  pub heap : MinHeap
  pub ended :
      r
      ≡ some (
        not (buf == nil),
        record d {
          pending_heap = heap;
          current_buffer = buf;
          current_sequence = wrap64 (d.current_sequence +ℤ pos 1);
        },
      )
  pub valid : IsValid heap
  pub same : Perm ((d.current_sequence, buf) ∷ entries heap) (entries d.pending_heap)

-- No item of the heap is both first and due, and the heap keeps its items.
pub record Missed (d : DoubleBuffer) (r : Option (Bool × DoubleBuffer)) : Type 0 where
  pub heap : MinHeap
  pub ended : r ≡ some (not (d.current_buffer == nil), record d { pending_heap = heap })
  pub valid : IsValid heap
  pub same : Perm (entries heap) (entries d.pending_heap)

abbrev pub Outcome : DoubleBuffer → Option (Bool × DoubleBuffer) → Type 0
Outcome d r = Found d r ⊎ Missed d r

no_item_left : (m : MinHeap) → (length m == 0) ≡ true → m ≡ []
no_item_left [] h = refl
no_item_left (x ∷ m) h = absurd (ground arith)

pick-none : (m : MinHeap) → (length m == 0) ≡ true → pick m ≡ some (none, m)
unfolding pick
pick-none m h = rw h

-- With no current buffer, the rounds end in one of the two ways.
pub pick_rounds_lem :
    (rounds : ℕ) (d : DoubleBuffer)
    → IsValid d.pending_heap
    → d.current_buffer ≡ nil
    → Outcome d (pick_rounds rounds d)
unfolding pick_rounds
pick_rounds_lem zero d v e =
    inr (record { heap = d.pending_heap; ended = refl; valid = v; same = Perm.rfl })
pick_rounds_lem (suc rounds) d v e = elim (Bool-cases (length d.pending_heap == 0)) [
  | inl empty ↦ inr (record {
    heap = d.pending_heap;
    ended = rw (pick-none d.pending_heap empty, e, pick_rounds);
    valid = v;
    same = Perm.rfl;
  })
  | inr some_left ↦
      let p = pick_least d.pending_heap v (ground arith) in
      elim (Bool-cases (eqb_ℤ p.item.sequence d.current_sequence)) [
        | inl due ↦
            let number : p.item.sequence ≡ d.current_sequence = ground arith in
            inl (record {
              buf = p.item.buf;
              heap = p.rest;
              ended = rw (p.ended, due, pick_rounds);
              valid = p.valid;
              same =
                  subst (λ n. Perm ((n, p.item.buf) ∷ entries p.rest) (entries d.pending_heap))
                    number p.same;
            })
        | inr early ↦
            let q = push_correct p.rest p.item p.valid in
            let back = Perm.trans q.same p.same in
            let again = pick_rounds_lem rounds (record d { pending_heap = q.result }) q.valid e in
            rw (p.ended, early, q.ended, pick_rounds) (after_miss d q.result back again)
      ]
]
  where
    after_miss :
        (d : DoubleBuffer) (h : MinHeap) {r : Option (Bool × DoubleBuffer)}
        → Perm (entries h) (entries d.pending_heap)
        → Outcome (record d { pending_heap = h }) r
        → Outcome d r
    after_miss d h back (inl f) = inl (record {
      buf = f.buf;
      heap = f.heap;
      ended = f.ended;
      valid = f.valid;
      same = Perm.trans f.same back;
    })
    after_miss d h back (inr f) =
        inr (record {
          heap = f.heap;
          ended = f.ended;
          valid = f.valid;
          same = Perm.trans f.same back;
        })
