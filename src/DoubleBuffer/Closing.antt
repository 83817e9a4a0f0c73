-- ===== src/DoubleBuffer/Closing.antt =====
-- How `Close` ends.
use chanjet.Common.{
  ℕ, zero, suc, ◌≤◌, ◌≡◌, refl, true, false, [], ◌∷◌, Option, some, length, arith, ◌==◌,
  if◌then◌else◌, inl, inr, Bool-cases,
}
use chanjet.Common.Count.{number_of, number_of-perm}
use chanjet.Consts.{writing_state, closed_state}
use chanjet.Buffer.{nil}
use chanjet.MinHeap.{MinHeap}
use chanjet.MinHeap.Swap.{entries}
use chanjet.Common.Exchange.{length-perm}
use chanjet.WrapHeap.{pick}
use chanjet.WrapHeap.Pick.{Picked, pick_least}
use chanjet.DoubleBuffer.{DoubleBuffer}
use chanjet.DoubleBuffer.Read.{drain, close}
use chanjet.DoubleBuffer.Ownership.{holds, uses, IsOwned-of_uses}
use chanjet.DoubleBuffer.Valid.{IsValid}

-- The run ends with a closed, valid stream whose pending heap is empty.
pub record Closed (r : Option DoubleBuffer) : Type 0 where
  pub result : DoubleBuffer
  pub ended : r ≡ some result
  pub valid : IsValid result
  pub closed : result.state ≡ closed_state
  pub drained : length result.pending_heap ≡ 0

length-entries : (m : MinHeap) → length (entries m) ≡ length m
length-entries [] = refl
length-entries (x ∷ m) = omega (arith, length-entries m)

round-IsValid :
    (d : DoubleBuffer) (p : Picked d.pending_heap (pick d.pending_heap))
    → d.state ≡ closed_state
    → IsValid d
    → IsValid (record d {
      pending_heap = p.rest;
      pool = if p.item.buf == nil then d.pool else p.item.buf ∷ d.pool;
    })
unfolding uses number_of
round-IsValid d p c v =
    let d' : DoubleBuffer = record d {
      pending_heap = p.rest;
      pool = if p.item.buf == nil then d.pool else p.item.buf ∷ d.pool;
    } in
    record {
      owned = elim (Bool-cases (p.item.buf == nil)) [
        | inl e ↦ absurd (ground (arith, e, number_of-perm (holds nil) p.same, v.owned.real))
        | inr e ↦
            IsOwned-of_uses d d' refl (λ a. rw e (omega (arith, number_of-perm (holds a) p.same)))
              v.owned
      ];
      heap = p.valid;
      numbered = λ o. absurd (ground (arith, c, o));
    }

drain_lem :
    (fuel : ℕ) (d : DoubleBuffer)
    → length d.pending_heap ≤ fuel
    → d.state ≡ closed_state
    → IsValid d
    → Closed (drain fuel d)
unfolding drain
drain_lem zero d f c v =
    let empty : (length d.pending_heap == 0) ≡ true = ground arith in
    record { result = d; ended = rw empty; valid = v; closed = c; drained = omega arith }
drain_lem (suc fuel) d f c v = elim (Bool-cases (length d.pending_heap == 0)) [
  | inl empty ↦ record {
    result = d;
    ended = rw (empty, drain);
    valid = v;
    closed = c;
    drained = ground arith;
  }
  | inr some_left ↦
      let p = pick_least d.pending_heap v.heap (ground arith) in
      let shorter : suc (length p.rest) ≡ length d.pending_heap =
        omega (arith, length-perm p.same, length-entries p.rest, length-entries d.pending_heap) in
      rw (some_left, p.ended, drain)
        (drain_lem fuel _ (omega (arith, shorter)) c (round-IsValid d p c v))
]

closed-IsValid :
    (d : DoubleBuffer)
    → (d.state == writing_state) ≡ true
    → IsValid d
    → IsValid
        (record d { state = closed_state; stopped = true; pool = d.passive ∷ d.active ∷ d.pool })
unfolding uses number_of
closed-IsValid d w v =
    let d' : DoubleBuffer = record d {
      state = closed_state;
      stopped = true;
      pool = d.passive ∷ d.active ∷ d.pool;
    } in
    let live : (d.state == closed_state) ≡ false = ground arith in
    record {
      owned = IsOwned-of_uses d d' refl (λ a. rw live (omega arith)) v.owned;
      heap = v.heap;
      numbered = λ o. absurd (ground arith);
    }

-- `Close` of an open, valid stream ends; the stream is closed and valid, and its pending heap empty.
pub close_ends : (d : DoubleBuffer) → d.state ≡ writing_state → IsValid d → Closed (close d)
unfolding close
close_ends d w v =
    let live : (d.state == writing_state) ≡ true = ground arith in
    rw live (drain_lem (length d.pending_heap) _ (omega arith) refl (closed-IsValid d live v))
